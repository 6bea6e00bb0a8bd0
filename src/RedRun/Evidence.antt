-- ===== src/RedRun/Evidence.antt =====
-- The frozen contract and the manifest of a run, as agent/container/red_classification.py reads
-- them. A text that the manifest may lack is empty when it does.
use bridle.Prelude.Json.{Json}
use bridle.Prelude.{
  List, [], ◌∷◌, ◌++◌, none, some, false, Option, Bool, String, contains, if◌then◌else◌, ◌||◌,
  is_none, ◌==◌, string_eq, ◌&&◌, option_eq, not,
}

-- The fields of `TestCaseSnapshot` and `FrozenTestContract` that are read.
pub record TestCase : Type 0 where
  pub case_id : String
  pub node_id : String

pub record FrozenTestContract : Type 0 where
  pub command_ids : List String
  pub cases : List TestCase
  pub expected_failure_case_ids : List String

pub record CaseResult : Type 0 where
  pub node_id : String
  pub outcome : String
  pub failure_type : String

pub record CommandResult : Type 0 where
  pub command_id : String
  pub is_timed_out : Bool
  pub collection_errors : List Json
  pub case_results : List CaseResult

pub record Manifest : Type 0 where
  pub error_code : String
  pub results : List CommandResult

-- The dictionary from node to case id: of two cases with the same node the later one counts.
unfoldable pub case_id_by_node : List TestCase → String → Option String
case_id_by_node [] node_id = none
case_id_by_node (c ∷ cs) node_id = elim (case_id_by_node cs node_id) [
  | some case_id ↦ some case_id
  | none ↦ if c.node_id == node_id then some c.case_id else none
]

-- Its values.
unfoldable pub contracted_among : List TestCase → List TestCase → List String
unfolding case_id_by_node
contracted_among cases [] = []
contracted_among cases (c ∷ cs) =
    let rest = contracted_among cases cs in
    if case_id_by_node cases c.node_id == some c.case_id then c.case_id ∷ rest else rest

abbrev pub contracted_ids : FrozenTestContract → List String
contracted_ids contract = contracted_among contract.cases contract.cases

-- The dictionary from case id to evidence: the last result of the case counts.
unfoldable pub evidence_by_case_id : List TestCase → List CaseResult → String → Option CaseResult
unfolding case_id_by_node
evidence_by_case_id cases [] case_id = none
evidence_by_case_id cases (r ∷ rs) case_id = elim (evidence_by_case_id cases rs case_id) [
  | some found ↦ some found
  | none ↦ if case_id_by_node cases r.node_id == some case_id then some r else none
]

abbrev pub is_harmless : CaseResult → Bool
is_harmless r = contains ("passed" ∷ "skipped" ∷ []) r.outcome

-- The results of nodes outside the contract that neither passed nor were skipped.
unfoldable pub uncontracted_failures : List TestCase → List CaseResult → List String
unfolding case_id_by_node
uncontracted_failures cases [] = []
uncontracted_failures cases (r ∷ rs) =
    let rest = uncontracted_failures cases rs in
    if is_none (case_id_by_node cases r.node_id) && not (is_harmless r)
    then (if r.node_id == "" then "unknown_case" else r.node_id) ∷ rest
    else rest

-- `xs - ys` on sets
unfoldable pub without : List String → List String → List String
without [] ys = []
without (x ∷ xs) ys = let rest = without xs ys in if contains ys x then rest else x ∷ rest

unfoldable pub all_collection_errors : List CommandResult → List Json
all_collection_errors [] = []
all_collection_errors (c ∷ cs) = c.collection_errors ++ all_collection_errors cs

unfoldable pub all_case_results : List CommandResult → List CaseResult
all_case_results [] = []
all_case_results (c ∷ cs) = c.case_results ++ all_case_results cs

unfoldable pub observed_command_ids : List CommandResult → List String
observed_command_ids [] = []
observed_command_ids (c ∷ cs) =
    let rest = observed_command_ids cs in if c.command_id == "" then rest else c.command_id ∷ rest

unfoldable pub any_timed_out : List CommandResult → Bool
any_timed_out [] = false
any_timed_out (c ∷ cs) = c.is_timed_out || any_timed_out cs
