-- ===== src/Message.antt =====
-- Message values (message/message.go, message/content.go): the data types of a transcript. A byte
-- slice and a string are both a list of bytes, and an absent slice is an empty one: the code
-- tells them apart by `len` only.
pub mod Content
pub mod History
use native.Mathlib.Decide.{ℕ_discrete}
use go_hydaelyn.Prelude.{
  ℕ, ◌≡◌, ◌↔◌, refl, Bool, true, false, Option, none, List, [], ◌∷◌, Text, Eq, decided, decided_iff,
}
use go_hydaelyn.Prelude.Assoc.{Map}

-- A role that is none of the five constants is a value of Go's string type, too.
pub data Role : Type 0 where
  system user assistant tool custom : Role
  other_role : Text → Role

pub data Kind : Type 0 where
  standard branch_summary compaction_summary command_output custom_kind : Kind
  other_kind : Text → Kind

pub data ContentKind : Type 0 where
  text commentary final_answer reasoning redacted_reasoning : ContentKind
  image audio file source provider_data : ContentKind
  other_content : Text → ContentKind

ContentKind-discrete : Discrete ContentKind
ContentKind-discrete = hlevel ℕ_discrete

unfoldable pub kind_beq : ContentKind → ContentKind → Bool
unfolding ContentKind-discrete ℕ_discrete
kind_beq a b = decided (ContentKind-discrete a b)

pub kind_beq_iff : (a b : ContentKind) → (kind_beq a b ≡ true) ↔ (a ≡ b)
unfolding kind_beq
kind_beq_iff a b = decided_iff (ContentKind-discrete a b)

instance abbrev pub kind_eq : Eq ContentKind
kind_eq = record { eqb = kind_beq; eqb_iff = kind_beq_iff }

-- `Source` of content.go
pub record Source : Type 0 where
  pub id : Text
  pub url : Text
  pub title : Text
  pub media_type : Text
  pub filename : Text

pub record ContentPart : Type 0 where
  pub id : Text
  pub kind : ContentKind
  pub text : Text
  pub bytes : List ℕ
  pub media_type : Text
  pub uri : Text
  pub filename : Text
  pub source : Option Source
  pub signature : Text
  pub provider_data : List ℕ

-- `ContentPart{}`
abbrev pub empty_part : ContentKind → ContentPart
empty_part k = record {
  id = [];
  kind = k;
  text = [];
  bytes = [];
  media_type = [];
  uri = [];
  filename = [];
  source = none;
  signature = [];
  provider_data = [];
}

pub record ToolCall : Type 0 where
  pub id : Text
  pub name : Text
  pub arguments : List ℕ
  pub operation_id : Text

pub record ToolResult : Type 0 where
  pub tool_call_id : Text
  pub name : Text
  pub content : Text
  pub parts : List ContentPart
  pub structured : List ℕ
  pub is_error : Bool

pub record ResponseMetadata : Type 0 where
  pub id : Text
  pub model : Text
  pub headers : Map Text Text

pub record Message : Type 0 where
  pub id : Text
  pub role : Role
  pub kind : Kind
  pub name : Text
  pub text : Text
  pub content : List ContentPart
  pub cache_boundary : Bool
  pub thinking : Text
  pub thinking_signature : Text
  pub redacted_thinking : Text
  pub provider_state : List ℕ
  pub response : ResponseMetadata
  pub tool_calls : List ToolCall
  pub tool_result : Option ToolResult
  pub metadata : Map Text Text

-- `Message{Role: role, Kind: KindStandard}`, the other fields zero
abbrev pub empty_message : Role → Message
empty_message r = record {
  id = [];
  role = r;
  kind = standard;
  name = [];
  text = [];
  content = [];
  cache_boundary = false;
  thinking = [];
  thinking_signature = [];
  redacted_thinking = [];
  provider_state = [];
  response = record { id = []; model = []; headers = [] };
  tool_calls = [];
  tool_result = none;
  metadata = [];
}
