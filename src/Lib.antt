-- ===== src/Lib.antt =====
-- quisp, a simulator of quantum repeater networks: the logic of a node.
--
-- A node sets up connections (quisp/modules/ConnectionManager), keeps memories of qubits
-- (quisp/modules/stationaryQubit), and runs rule sets on the qubits that are entangled with other
-- nodes (quisp/modules/RuleEngine with quisp/rules). A request for a connection travels from the
-- initiator to the responder; the nodes between reserve their qnics and add themselves to the
-- request; the responder divides the path, decides which node swaps for which, and sends every node
-- its rule set. The engine of a node then gives its resources to the rules. A rule runs while its
-- condition holds; an action measures and frees qubits, and sends its outcomes to the other end; the
-- two results of a purification decide whether the resource goes on to the next rule.
--
-- Prelude: shared names, tests on numbers, integers (an `int` of the source does not wrap here),
-- lists, maps as lists in the order of their keys, and results with one error for each error(...) of
-- the source.
-- Network: quisp/modules/QNIC.h and the tables of HardwareMonitor and RoutingDaemon that are read.
-- Connection: quisp/modules/ConnectionManager.{h,cc}. Path is computePathDivisionSize and
-- fillPathDivision, whose recursion takes fuel; the entry points give as much as there are hops, and
-- each call halves a number of hops that is at least 2, so it is enough. RuleSets generates the rule
-- sets, Manager has the state and the handlers of the forwarding nodes, Responder the responder and
-- handleMessage. A handler returns the new state and the packets sent, or an error.
-- Rules: quisp/rules. Types is the data of rule sets, Conditions is Clause.cc and Condition.cc, and a
-- round of RuleEngine's loop over a rule as far as its condition goes.
-- Qubits: quisp/modules/stationaryQubit.{h,cc}. The qubits are a store, a pointer is a number in it.
-- Memory is apply_memory_error and the states it leads to, Gates the gates and purifications.
-- Slots: the QubitStateTable functions of quisp/modules/RuleEngine.cc.
-- Engine: the engine's state and the freeing of qubits (RuleEngine.cc, RealTimeController.cc);
-- Actions is the purifying actions of quisp/rules/Action.cc, Unlock the two Unlock functions and
-- Agreement the storeCheck functions of RuleEngine.cc.
-- Bursts is the emission of photons in RuleEngine.cc, the tracker that records which qubit emitted
-- which photon, and the sorting of the results; Processes is ResourceAllocation and the map of
-- running rule sets. run_burst runs the events of a burst on fuel; one step more than there are free
-- qubits is enough.
-- Swapping is SwappingAction::run of quisp/rules/Action.cc and
-- updateResources_EntanglementSwapping.
-- Emission: the emission of a photon in quisp/modules/stationaryQubit.cc.
-- PairSource: the handlers of quisp/modules/SPDC_Controller.cc; its start message is never scheduled
-- there, so it has tests only.
-- Queue: quisp/modules/Queue.cc.
-- Channel: processMessage of quisp/channels/QuantumChannel.cc.
-- Router: handleMessage of quisp/modules/Router.cc, and packets that pass several routers; a walk
-- takes fuel, one more than the distance being enough.
-- Analyzer: quisp/modules/BellStateAnalyzer.cc, which pairs the photons of the two neighbours of a
-- link, measures each pair, and entangles the qubits that sent them.
-- HomController: quisp/modules/HoM_Controller.{h,cc}, which collects the analyzer's results of a
-- round and sends them to both neighbours with the time of the next round. Engine.Bursts receives
-- them.
-- Tomography: sendLinkTomographyRuleSet of quisp/modules/HardwareMonitor.cc.
-- Each component has a module Tests with small runs.
--
-- Parameters, since their code is not in the repository: the module tree of OMNeT++ (`stat_qubit`),
-- the random numbers (`rand`), and the powers of the transition matrix that Eigen computes, with the
-- sums and checks of doubles around them (`evolution`, and `output` in Channel). Doubles that are only
-- compared or added are natural numbers in a common unit. The ids that createUniqueId hashes are an
-- argument.
--
-- Not modelled: random measurement among the actions, and with it density matrices; the traversal of
-- the processes in RuleEngine, but for the condition of one rule; Application; the display; and what
-- builds tables from the simulator's topology.
pub mod Prelude
pub mod Network
pub mod Rules
pub mod Connection
pub mod Qubits
pub mod Slots
pub mod Engine
pub mod Router
pub mod Analyzer
pub mod HomController
pub mod Tomography
pub mod Emission
pub mod Channel
pub mod Queue
pub mod PairSource
