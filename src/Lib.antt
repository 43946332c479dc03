-- ===== src/Lib.antt =====
-- A model of the reasoning core of VCSE, and what is proved of it.
--
-- VCSE answers a question by search over explicit world states. A world state holds claims, relation
-- schemas, constraints, symbol bindings, evidence, goals and contradictions. A transition proposes
-- one change: it is validated and applied to a copy of the state. A stack of four verifiers scores
-- the new state, and the final-state evaluator says whether the goal is answered: VERIFIED,
-- INCONCLUSIVE, CONTRADICTORY or UNSATISFIABLE. The parts modelled here are these.
--
-- * Memory models src/vcse/memory. Memory/Model has the dataclasses Claim, Goal, Contradiction,
--   RelationSchema and Constraint with their `__post_init__` checks, and State, the attributes of
--   WorldStateMemory. Memory has its methods (`add_claim`, `find_claim`, `add_goal`,
--   `update_truth_status`, `record_contradiction` and the others) as functions from a state to the
--   next state and the result. Memory/Keys is `canonical_claim_key`, Memory/Path is
--   `dependency_path_for_claim` and `proof_trace_for_claim`. Memory/Calls has the mutating methods as
--   one data type of calls, and the states that calls and clones reach.
-- * Transition models src/vcse/transitions: `Transition.validate` with its seven validators, and
--   `Transition.apply` with its seven appliers.
-- * Verifier models src/vcse/verifier: Verifier/Claims is claim_verifier.py, Verifier/Constraints is
--   constraint_verifier.py, Verifier/Contradictions is contradiction_detector.py, Verifier/Goals is
--   goal_checker.py, Verifier/Final is final_state.py and Verifier/Stack is stack.py.
-- * Search models the beam search of src/vcse/search: Search/Node has its nodes and settings,
--   Search/Steps the states of its loops, Search/Score is `_score`, Search/Beam is `run` with its
--   three nested loops. `enable_ts3` is off, as by default. The proposer, an interface of the code,
--   and float arithmetic are parameters. A node is an object that the code changes in place; where
--   the best node is also the first of the frontier, the flag `shared` of the model says so.
-- * Proposer models src/vcse/proposer: rule_based.py, without rules of a capability bundle, and
--   domain_specific.py.
-- * Engine models `state_from_case` and `CompositeProposer` of src/vcse/engine.py.
-- * Ledger models the hash chain of src/vcse/ledger: `append` and `verify` of the store on the list of
--   events that its file holds. JSON printing and SHA-256 are parameters. Ledger/Merkle is `build_merkle_root` of merkle.py.
-- * Trust models the promotion of claims in src/vcse/trust: Trust/Policy is policy.py, Trust/Tiers is
--   tiers.py with `_validate_transition_path`, Trust/Scorer is scorer.py, Trust/Staleness is
--   staleness.py, and Trust/Promoter is `TrustPromoter.evaluate_claim` of promoter.py, which reads a
--   claim (Trust/Promoter/Reading) and takes it through stages (Trust/Promoter/Stages). An
--   OverflowError in what it reads is an outcome of its own; `float(x)` and the clock are parameters.
-- * Policy models src/vcse/policy: Policy/Enforcer is enforcer.py, Policy/Condition is
--   `evaluate_condition` of rules.py, Policy/Engine is engine.py, and its `run` is
--   `PolicyExecutor.run`, which executes a profile on the decision of the trust promoter.
-- * Packs models src/vcse/packs: Packs/Lifecycle is lifecycle.py on what pack.json holds,
--   Packs/Registry is registry.py on the list that its file holds, and Packs/Resolver, with
--   Packs/Version for the requirements on versions, is resolver.py.
-- * Ontology models the lifecycle of ontology items, src/vcse/ontology/lifecycle.py.
-- * Inference models transitive.py and inverse.py of src/vcse/inference.
-- * Interner models the Interner of src/vcse/compression/interner.py.
-- * Text has `str.strip`, `str.split` and the normalisation `_norm` of world_state.py, and decimal
--   printing. Dict is the Python dict: pairs in the order in which the keys were first set. Number
--   has the int and float values that constraints compare. Value has the dynamic values of
--   transition arguments and symbol bindings.
-- * Prelude has the names and lemmas that all parts share, and Tests runs of the model.
--
-- A method that changes its object is a function that returns the changed State. `clone` copies it
-- deeply, so the two states share nothing; in `record_contradiction` the same Contradiction object
-- stands under several ids, which no code changes afterwards, so it is a plain value here. A
-- `ValueError` is a constructor of a result type (Made, Outcome). An exception that leaves a method
-- is the outcome `raised`.
--
-- Numbers are rationals with a power of two as denominator, the two infinities and NaN: every float
-- and every int is one. A verifier score is kept in tenths, and a stack score as a fraction, which is
-- compared with the threshold 0.7 exactly and not in floats.
--
-- The recursion of `dependency_path_for_claim` runs on fuel, one more than the number of claims. That
-- is enough: each nested visit that goes on marks a claim not marked before (Memory/Path/Walk and
-- `walk_total` of Memory/Path/Correct). The search runs on fuel for two passes more than max_depth,
-- one for each level, the last of which has no children, and one to return. A resolution of
-- dependencies runs on two visits more than there are installed packs: each nested visit has the key
-- of an installed pack that no visit around it has. Python's own limit on
-- recursion is not modelled.
--
-- Not modelled: `repr` of a value in the message for an invalid status (a reason holds the value),
-- the JSON forms and files, the MCTS search, the solver-backed proposer, the merging, indexing and
-- validation of packs, the certification gate, the conflict detector and clusters of claims in the
-- trust layer, the reasoning graph, and the ingestion and interaction layers around the core. The
-- text of a value that is no string or status is a part of the value: what Python's `str` gives for
-- it.
mod Prelude
pub mod Text
pub mod Dict
pub mod Number
pub mod Value
pub mod Memory
pub mod Ontology
pub mod Packs
pub mod Policy
pub mod Verifier
pub mod Transition
pub mod Trust
pub mod Search
pub mod Proposer
pub mod Engine
pub mod Ledger
pub mod Interner
pub mod Inference
pub mod Tests
