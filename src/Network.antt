-- ===== src/Network.antt =====
-- What a node knows of its links: quisp/modules/QNIC.h, the tables of
-- quisp/modules/HardwareMonitor.{h,cc} and quisp/modules/RoutingDaemon.cc that other modules read.
use quisp.Prelude.{ℤ, pos, minus_one, ◌==ℤ◌, if◌then◌else◌, List, [], ◌∷◌, none, some, lookup}

pub data QnicType : Type 0 where
  qnic_e qnic_r qnic_rp qnic_n : QnicType

pub record QnicId : Type 0 where
  pub type : QnicType
  pub index : ℤ
  pub address : ℤ

pub record QnicIdPair : Type 0 where
  pub fst : QnicId
  pub snd : QnicId

-- An entry of the neighbor table. The cost of the link is the `int` that its `double` becomes when
-- it is read.
pub record InterfaceInf : Type 0 where
  pub qnic : QnicId
  pub neighbor_qnode_address : ℤ
  pub link_cost : ℤ

pub record ConnectionSetupInf : Type 0 where
  pub qnic : QnicId
  pub neighbor_address : ℤ
  pub quantum_link_cost : ℤ

-- The value that the search starts from. Its initialiser leaves the address out, so that is 0.
abbrev pub unknown_setup : ConnectionSetupInf
unknown_setup = record {
  qnic = record { type = qnic_n; index = minus_one; address = pos 0 };
  neighbor_address = minus_one;
  quantum_link_cost = minus_one;
}

abbrev setup_of : InterfaceInf → ConnectionSetupInf
setup_of i = record {
  qnic = i.qnic;
  neighbor_address = i.neighbor_qnode_address;
  quantum_link_cost = i.link_cost;
}

-- The first entry of the neighbor table whose qnic has the address.
unfoldable pub return_setup_inf : List (ℤ × InterfaceInf) → ℤ → ConnectionSetupInf
return_setup_inf [] a = unknown_setup
return_setup_inf ((k, i) ∷ t) a = if i.qnic.address ==ℤ a then setup_of i else return_setup_inf t a

-- The address of the qnic towards a node, -1 if there is none.
unfoldable pub return_qnic_address_to_dest_addr : List (ℤ × QnicId) → ℤ → ℤ
unfolding lookup
return_qnic_address_to_dest_addr qrtable dest = elim (lookup dest qrtable) [
  | none ↦ minus_one
  | some q ↦ q.address
]
