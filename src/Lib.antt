-- ===== src/Lib.antt =====
-- The matchmaking core of the repository: what it validates, how it scores and preselects, and how
-- the coordinator hands tickets out exactly once.
--
-- Parts, files and their code:
-- - Base: Boolean tests, bytes, 64-bit integers, sets, association lists and sorting.
-- - Domain (internal/domain/model.go, failure.go): the records and enumerations. Domain/Validate and
--   Domain/Proposal (validate.go) hold the validators, Domain/Policy (policy.go) the canonical bytes
--   and the fingerprint of a policy, Domain/Batch the result of planning and references to tickets.
--   Domain/Tickets, Domain/Relaxation and Domain/Snapshots state
--   what the validators accept.
-- - Coordinator (internal/coordinator/coordinator.go): the state is the record Coordinator, with a
--   field for each map of the struct. Owners has the loops that claim and release names, Tickets the
--   upserts and cancels, Expiry expireLocked and releaseLocked, Reservations Reserve, Cancel and the
--   checks of freshness and availability, Confirmation Confirm, Assignments AcknowledgeAssignment and
--   Assignment, Snapshot Snapshot. History runs sequences of calls.
-- - Constraint (internal/constraint/constraint.go): TicketAllowed and HardViolation.
-- - Objective (internal/objective/objective.go): the active step and Compare; Objective/Evaluate has
--   evaluate and EvaluateBackfill.
-- - Catalog (internal/policy/catalog.go): Register and Get.
-- - Discovery (internal/discovery/window.go, index.go): SelectWindow, BuildIndex and the window of an
--   index.
-- - Planner (internal/planner/planner.go, batch.go): the values, keys and orders of planning. Planner/Batch
--   ranks the candidates and has greedySelection and the set of used names, Planner/Batch/Quality
--   betterSelection, Planner/Batch/Search the searches of selectProposalBatch and paretoSelection.
--   Planner/Teams has the teams of a placement search, Planner/Placement what is made of a full
--   placement, Planner/Search findBestPlacement, Planner/Candidates and Planner/Collect
--   generateProposalCandidates, Planner/Proposal buildProposal and proposalIdentity, Planner/Plan Plan.
--   The modules below them prove what the searches keep.
-- - Engine (internal/engine/engine.go): the coordinator, the catalog and the planner behind one
--   boundary.
-- - Examples: runs at concrete inputs.
--
-- How code becomes definitions:
-- - A method of a struct with a mutex takes the state and returns the new state with its result. The
--   mutex is held from the first read to the last write, so calls of any number of goroutines act one
--   after the other, and a history is a list of calls.
-- - (value, error) is Result, and a Failure is kept as its code, without the diagnostic text.
-- - Identities and other strings are lists of bytes, compared byte by byte. time.Time is the number of
--   nanoseconds from the zero time; a difference saturates as time.Duration does. int, int64 and
--   time.Duration are integers with wrap-around at 64 bits in sums, differences and products; now.Add
--   is exact. Revisions are natural numbers, which the code only compares.
-- - String enumerations have a constructor for every other string.
-- - Go maps are association lists with each key once. Where the code ranges over a map, the order is
--   that of the list, except for expireLocked, whose effect is shown to be that of every order.
-- - Slices are lists; nil and empty ones are not told apart, nor are locations of times, so
--   reflect.DeepEqual is structural equality. Clones are the values themselves.
-- - sort.Slice, slices.SortFunc and slices.Sort are insertion sort: their keys are unique, or equal
--   elements are equal numbers. sort.Search is the scan for the first position; heap.Pop takes a least
--   cursor.
-- - A read out of range, on which Go panics, is none. In a placement search a panic sets a flag of the
--   budget, which is handed from search to search and never reset; where it is set, Plan returns none.
--   Memory has no bound, so make does not panic; its lengths are those that ValidatePolicy admits.
-- - SHA-256 in hexadecimal is a parameter, called digest.
-- - An index into a list of the planner stands with the element at it, or is that element. What a
--   search changes and changes back is the argument of its recursive call; what outlives the call, the
--   budget and the result, is its state. A map from a key to the position of a candidate is the scan
--   for the candidate with that key.
-- Loops are structural recursion. Fuel has only digits_before, the decimal digits of a number: its fuel
-- is the number, which has no more digits than its value, or one for 0.
--
-- Not modelled: the clone functions, FailureCodeOf and error texts; repositories, journals, services,
-- HTTP and wire interfaces, authentication, wiring, metrics, simulations and the user interface, which
-- are I/O or rest on the engine.
pub mod Base
pub mod Domain
pub mod Coordinator
pub mod Constraint
pub mod Objective
pub mod Catalog
pub mod Discovery
pub mod Planner
pub mod Engine
pub mod Examples
