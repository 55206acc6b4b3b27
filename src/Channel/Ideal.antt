-- ===== src/Channel/Ideal.antt =====
-- A channel without noise or loss (quisp/channels/QuantumChannel.cc).
use quisp.Prelude.{ℕ, ◌==◌, ltb, leb, Bool, true, false, ◌&&◌, ◌≡◌, refl, arith}
use quisp.Analyzer.{Photon}
use quisp.Channel.{
  Condition, no_error, x_error, z_error, y_error, lost, OutputCeilings, process_message,
}

-- The ceilings where the transition matrix is the identity: all of the unit is on the condition that
-- the photon comes with.
abbrev pub identity : (unit : ℕ) → Condition → OutputCeilings
identity unit no_error = record {
  no_error_ceil = unit;
  x_error_ceil = unit;
  z_error_ceil = unit;
  y_error_ceil = unit;
}
identity unit x_error = record {
  no_error_ceil = 0;
  x_error_ceil = unit;
  z_error_ceil = unit;
  y_error_ceil = unit;
}
identity unit z_error = record {
  no_error_ceil = 0;
  x_error_ceil = 0;
  z_error_ceil = unit;
  y_error_ceil = unit;
}
identity unit y_error = record {
  no_error_ceil = 0;
  x_error_ceil = 0;
  z_error_ceil = 0;
  y_error_ceil = unit;
}
identity unit lost = record {
  no_error_ceil = 0;
  x_error_ceil = 0;
  z_error_ceil = 0;
  y_error_ceil = 0;
}

abbrev pub flagged : (x z l : Bool) → Photon → Photon
flagged x z l q = record q { pauli_x_err = x; pauli_z_err = z; photon_lost = l }

below_none : (rand : ℕ) → ltb rand 0 ≡ false
below_none rand = ground arith

within_unit :
    (unit rand : ℕ)
    → ltb rand unit ≡ true
    → (ltb rand 0 ≡ false) × (leb 0 rand ≡ true) × ((0 == unit) ≡ false)
within_unit unit rand h = (ground arith, ground arith, ground arith)

flags :
    (unit rand : ℕ) (x z l : Bool) (q : Photon)
    → ltb rand unit ≡ true
    → process_message (identity unit) rand (flagged x z l q) ≡ flagged (l && x) (l && z) l q
unfolding process_message
flags unit rand x z true q h =
    let below0 = below_none rand in
    let above : leb 0 rand ≡ true = ground arith in rw (process_message, below0, above) refl
flags unit rand true true false q h =
    let (below, above, apart) = within_unit unit rand h in
    let below0 = below_none rand in rw (process_message, below0, above, h, apart) refl
flags unit rand true false false q h =
    let (below, above, apart) = within_unit unit rand h in
    let below0 = below_none rand in rw (process_message, below0, above, h, apart) refl
flags unit rand false true false q h =
    let (below, above, apart) = within_unit unit rand h in
    let below0 = below_none rand in rw (process_message, below0, above, h, apart) refl
flags unit rand false false false q h = rw (process_message, h) refl

-- Where the transition matrix is the identity, a photon that is lost stays as it is, and one that is
-- not lost comes out without any error, whatever errors it came with.
pub process_message-identity :
    (unit rand : ℕ) (q : Photon)
    → ltb rand unit ≡ true
    → process_message (identity unit) rand q
      ≡ flagged (q.photon_lost && q.pauli_x_err) (q.photon_lost && q.pauli_z_err) q.photon_lost q
process_message-identity unit rand q h =
    flags unit rand q.pauli_x_err q.pauli_z_err q.photon_lost q h
