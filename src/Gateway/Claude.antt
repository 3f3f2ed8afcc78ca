-- ===== src/Gateway/Claude.antt =====
-- gateway_models.py: the policy for the Claude models, and the specs of a picker.
use coding_agents_databricks.Base.{
  ℕ, ◌+◌, ◌-◌, ◌*◌, Bool, true, false, ◌&&◌, ◌||◌, Option, none, some, List, [], ◌∷◌, ◌++◌, ltb,
  leb, nat_eq, if◌then◌else◌,
}
use coding_agents_databricks.Base.Text.{codes}
use coding_agents_databricks.Base.Parse.{Text, is_digit}
use coding_agents_databricks.Json.{Fields, bool, end, get_or}
use coding_agents_databricks.Gateway.Names.{after, canonical}
use coding_agents_databricks.Gateway.Metadata.{Metadata, find_entry, is_true}

-- what `claude_model_capabilities` returns
pub record ClaudePolicy : Type 0 where
  pub context_window : ℕ
  pub max_tokens : ℕ
  pub supports_1m : Bool
  pub force_adaptive_thinking : Bool

abbrev pub claude_fallback : ClaudePolicy
claude_fallback = record {
  context_window = 200000;
  max_tokens = 64000;
  supports_1m = false;
  force_adaptive_thinking = false;
}

-- the number of the digits at the start of a text, and the rest
unfoldable pub leading : ℕ → Text → ℕ × Text
leading n [] = (n, [])
leading n (c ∷ cs) = elim (is_digit c) [
  | true ↦ leading (n * 10 + (c - b'0')) cs
  | false ↦ (n, c ∷ cs)
]

-- `\d+` at the start of a text
unfoldable pub number : Text → Option (ℕ × Text)
number [] = none
number (c ∷ cs) = if is_digit c then some (leading 0 (c ∷ cs)) else none

-- `(?:-(\d+))?`, with 0 for a number that is missing
unfoldable pub minor : Text → ℕ
minor text = elim (after (codes "-") text) [
  | none ↦ 0
  | some rest ↦ elim (number rest) [ none ↦ 0 | some (n, _) ↦ n ]
]

-- the version after `claude-`, the family and a dash
unfoldable pub claude_version : Text → Text → Option (ℕ × ℕ)
claude_version family name = elim (after (codes "claude-" ++ family ++ codes "-") name) [
  | none ↦ none
  | some text ↦ elim (number text) [ none ↦ none | some (n, rest) ↦ some (n, minor rest) ]
]

-- `version >= bound`
abbrev pub at_least : ℕ × ℕ → ℕ × ℕ → Bool
at_least (a, b) (c, d) = ltb c a || nat_eq c a && leb d b

unfoldable pub opus_policy : ℕ × ℕ → ClaudePolicy
opus_policy version =
    if at_least version (4, 6)
    then record {
      context_window = 1000000;
      max_tokens = 128000;
      supports_1m = true;
      force_adaptive_thinking = true;
    }
    else claude_fallback

unfoldable pub sonnet_policy : ℕ × ℕ → ClaudePolicy
sonnet_policy version =
    if at_least version (4, 6)
    then record {
      context_window = 1000000;
      max_tokens = 64000;
      supports_1m = true;
      force_adaptive_thinking = true;
    }
    else if at_least version (4, 5)
    then record {
      context_window = 1000000;
      max_tokens = 64000;
      supports_1m = true;
      force_adaptive_thinking = false;
    }
    else claude_fallback

unfoldable pub fable_policy : ℕ × ℕ → ClaudePolicy
fable_policy version =
    if at_least version (5, 0)
    then record {
      context_window = 1000000;
      max_tokens = 128000;
      supports_1m = false;
      force_adaptive_thinking = true;
    }
    else claude_fallback

-- `claude_model_capabilities`; a name has at most one of the families
unfoldable pub claude_model_capabilities : Text → ClaudePolicy
claude_model_capabilities model_id =
    let name = canonical model_id in
    elim (claude_version (codes "opus") name) [
      | some version ↦ opus_policy version
      | none ↦ elim (claude_version (codes "sonnet") name) [
        | some version ↦ sonnet_policy version
        | none ↦ elim (claude_version (codes "fable") name) [
          | some version ↦ fable_policy version
          | none ↦ claude_fallback
        ]
      ]
    ]

-- the specs of `anthropic_specs`
pub record ClaudeSpec : Type 0 where
  pub id : Text
  pub image_input : Bool
  pub policy : ClaudePolicy

unfoldable pub anthropic_specs : List Text → Metadata → List ClaudeSpec
anthropic_specs [] metadata = []
anthropic_specs (model ∷ models) metadata =
    let capabilities : Fields = elim (find_entry (canonical model) metadata) [
      | none ↦ end
      | some e ↦ e.capabilities
    ] in
    record {
      id = model;
      image_input = is_true (get_or (bool true) "image_input" capabilities);
      policy = claude_model_capabilities model;
    }
    ∷ anthropic_specs models metadata
