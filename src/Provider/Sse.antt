-- ===== src/Provider/Sse.antt =====
-- The reader of server-sent events (provider/shared/sse.go). The reader's state is the lines that are
-- still to be read, the last perhaps without its newline, and how the body ends after them.
pub mod Printed
use go_hydaelyn.Prelude.{
  ℕ, ◌+◌, suc, ltb, Bool, true, false, not, ◌&&◌, ◌||◌, Option, none, some, List, [], ◌∷◌, ◌++◌,
  Text, lit, ◌==◌, nat_eq, text_eq_instance, length, if◌then◌else◌, is_blank, trim_space,
}
use go_hydaelyn.Message.Content.{is_empty}

-- `MaxSSELineBytes`, `MaxSSEFrameBytes` and `MaxSSEFrameLines`
abbrev pub max_line_bytes : ℕ
max_line_bytes = 8388608

abbrev pub max_frame_bytes : ℕ
max_frame_bytes = 16777216

abbrev pub max_frame_lines : ℕ
max_frame_lines = 4096

pub record Event : Type 0 where
  pub name : Text
  pub data_text : Text
  pub id : Text
  pub comment : Text

pub record RawLine : Type 0 where
  pub text : Text
  pub terminated : Bool

abbrev pub line_end : ℕ → List RawLine → List RawLine
line_end c [] = record { text = c ∷ []; terminated = false } ∷ []
line_end c (line ∷ lines) = record line { text = c ∷ line.text } ∷ lines

-- The lines of a body.
unfoldable pub split_lines : List ℕ → List RawLine
split_lines [] = []
split_lines (c ∷ body) =
    let lines = split_lines body in
    if c == 10 then record { text = []; terminated = true } ∷ lines else line_end c lines

-- `strings.TrimSuffix(line, "\r")`
unfoldable pub trim_return : Text → Text
trim_return [] = []
trim_return (c ∷ []) = if c == 13 then [] else c ∷ []
trim_return (c ∷ d ∷ line) = c ∷ trim_return (d ∷ line)

-- What stands before and after the first colon.
unfoldable pub cut_colon : Text → Option (Text × Text)
cut_colon [] = none
cut_colon (c ∷ line) =
    let rest = cut_colon line in
    if c == 58 then some ([], line) else elim rest [ none ↦ none | some p ↦ some (c ∷ p.0, p.1) ]

abbrev without_space : Text → Text
without_space [] = []
without_space (c ∷ value) = if c == 32 then value else c ∷ value

abbrev field_value : Option (Text × Text) → Text × Text
field_value none = ([], [])
field_value (some (field, rest)) = (field, without_space rest)

-- `parseSSELine`
unfoldable pub parse_sse_line : Text → Text × Text
parse_sse_line line = field_value (cut_colon line)

-- The variables of `Reader.Next`.
pub record Frame : Type 0 where
  pub name : Text
  pub data_lines : List Text
  pub id : Text
  pub comment : Text
  pub frame_bytes : ℕ
  pub frame_lines : ℕ

abbrev pub new_frame : Frame
new_frame = record {
  name = [];
  data_lines = [];
  id = [];
  comment = [];
  frame_bytes = 0;
  frame_lines = 0;
}

-- `strings.Join(data, "\n")`
unfoldable pub join_lines : List Text → Text
join_lines [] = []
join_lines (l ∷ []) = l
join_lines (l ∷ m ∷ lines) = l ++ 10 ∷ join_lines (m ∷ lines)

abbrev pub event_of : Frame → Event
event_of f = record {
  name = f.name;
  data_text = join_lines f.data_lines;
  id = f.id;
  comment = f.comment;
}

abbrev pub is_unused : Frame → Bool
is_unused f = is_empty f.data_lines && is_empty f.name && is_empty f.id && is_empty f.comment

unfoldable pub with_field : Text → Text → Frame → Frame
unfolding lit
with_field field value f =
    if field == lit "event"
    then record f { name = value }
    else if field == lit "data"
    then record f { data_lines = f.data_lines ++ value ∷ [] }
    else if field == lit "id"
    then record f { id = value }
    else f

-- a comment line or a field line
unfoldable pub absorb : Text → Frame → Frame
absorb [] f = f
absorb (c ∷ line) f =
    let (field, value) = parse_sse_line (c ∷ line) in
    if c == 58 then record f { comment = trim_space line } else with_field field value f

pub data Next : Type 0 where
  event : Event → Next
  unexpected_eof : Event → Next
  eof line_too_long frame_too_large : Next
  read_error : Text → Next

abbrev at_end : Option Text → Frame → Next
at_end (some reason) f = read_error reason
at_end none f = if is_unused f then eof else unexpected_eof (event_of f)

abbrev line_size : RawLine → ℕ
line_size l = length l.text + (if l.terminated then 1 else 0)

abbrev breaks_off : Bool → Option Text → Option Text
breaks_off true ending = none
breaks_off false ending = ending

abbrev pub counted : Text → Frame → Frame
counted line f = record f {
  frame_bytes = f.frame_bytes + (length line + 1);
  frame_lines = f.frame_lines + 1;
}

abbrev is_too_large : Frame → Bool
is_too_large f = ltb max_frame_bytes f.frame_bytes || ltb max_frame_lines f.frame_lines

-- `Reader.Next` from a frame in progress; `ending` is the body's error, none for `io.EOF`
unfoldable pub next : Option Text → List RawLine → Frame → Next × List RawLine
next ending [] f = (at_end ending f, [])
next ending (raw ∷ lines) f =
    let line = trim_return raw.text in
    let f1 = counted line f in
    let f2 = if is_blank line then f1 else absorb line f1 in
    let rest = next ending lines f2 in
    if ltb max_line_bytes (line_size raw)
    then (line_too_long, lines)
    else elim (breaks_off raw.terminated ending) [
      | some reason ↦ (read_error reason, lines)
      | none ↦
          if is_too_large f1
          then (frame_too_large, lines)
          else if is_blank line && not (is_unused f1)
          then (event (event_of f1), lines)
          else rest
    ]
