-- ===== src/Provider/Sse/Printed.antt =====
-- An event that was written to a stream is read back (provider/shared/sse.go).
use go_hydaelyn.Prelude.{
  ℕ, ◌+◌, ◌≤◌, ◌≡◌, refl, ◌∙◌, suc, ltb, Bool, true, false, not, ◌&&◌, ◌||◌, Option, none, some,
  List, [], ◌∷◌, ◌++◌, Text, lit, ◌==◌, nat_eq, text_eq_instance, length, if◌then◌else◌, is_blank,
  trim_space, All, arith, map, Bool-cases, inl, inr, append-nil, append_assoc,
}
use go_hydaelyn.Message.Content.{is_empty}
use go_hydaelyn.Provider.Sse.{
  RawLine, split_lines, trim_return, parse_sse_line, cut_colon, Frame, new_frame, join_lines,
  event_of, with_field, absorb, next, counted, max_line_bytes, max_frame_lines, max_frame_bytes,
  is_unused, event,
}

-- The text has a line break.
abbrev pub has_break : Text → Bool
has_break [] = false
has_break (c ∷ text) = c == 10 || c == 13 || has_break text

abbrev full_line : Text → RawLine
full_line text = record { text = text; terminated = true }

abbrev event_line : Text → Text
event_line name = 101 ∷ 118 ∷ 101 ∷ 110 ∷ 116 ∷ 58 ∷ 32 ∷ name

abbrev data_line : Text → Text
data_line l = 100 ∷ 97 ∷ 116 ∷ 97 ∷ 58 ∷ 32 ∷ l

-- The lines of an event's data and the blank line after them.
abbrev pub print_data : List Text → Text → Text
print_data [] rest = 10 ∷ rest
print_data (l ∷ ls) rest = data_line l ++ 10 ∷ print_data ls rest

abbrev pub print_event : Text → List Text → Text → Text
print_event name ls rest = event_line name ++ 10 ∷ print_data ls rest

-- The bytes of the data lines and the blank line.
abbrev pub data_size : List Text → ℕ
data_size [] = 1
data_size (l ∷ ls) = length l + (7 + data_size ls)

split_lines-append :
    (l body : Text)
    → has_break l ≡ false
    → split_lines (l ++ 10 ∷ body) ≡ full_line l ∷ split_lines body
unfolding split_lines
split_lines-append [] body h = refl
split_lines-append (c ∷ l) body h =
    let rest = split_lines-append l body (ground arith) in
    let other : (c == 10) ≡ false = ground arith in rw (rest, other) refl

trim_return-same : (l : Text) → has_break l ≡ false → trim_return l ≡ l
unfolding trim_return
trim_return-same [] h = refl
trim_return-same (c ∷ []) h = let other : (c == 13) ≡ false = ground arith in rw other refl
trim_return-same (c ∷ d ∷ l) h = rw (trim_return-same (d ∷ l) (ground arith)) refl

event_line-absorb :
    (name : Text) (f : Frame) → absorb (event_line name) f ≡ record f { name = name }
unfolding absorb parse_sse_line cut_colon with_field go_hydaelyn.Prelude.text_eq lit
event_line-absorb name f = refl

data_line-absorb :
    (l : Text) (f : Frame)
    → absorb (data_line l) f ≡ record f { data_lines = f.data_lines ++ l ∷ [] }
unfolding absorb parse_sse_line cut_colon with_field go_hydaelyn.Prelude.text_eq lit
data_line-absorb l f = refl

event_line-blank : (name : Text) → is_blank (event_line name) ≡ false
unfolding is_blank
event_line-blank name = refl

data_line-blank : (l : Text) → is_blank (data_line l) ≡ false
unfolding is_blank
data_line-blank l = refl

module _ (ending : Option Text) where
  line_step :
      (t : Text) (lines : List RawLine) (f : Frame)
      → has_break t ≡ false
      → is_blank t ≡ false
      → f.frame_bytes + (length t + 1) ≤ max_line_bytes
      → f.frame_lines + 1 ≤ max_frame_lines
      → next ending (full_line t ∷ lines) f ≡ next ending lines (absorb t (counted t f))
  unfolding next
  line_step t lines f plain shown fits few =
      let long : ltb max_line_bytes (length t + 1) ≡ false = ground arith in
      let large : ltb max_frame_bytes (f.frame_bytes + (length t + 1)) ≡ false = ground arith in
      let many : ltb max_frame_lines (f.frame_lines + 1) ≡ false = ground arith in
      rw (trim_return-same t plain, shown, long, large, many) refl

  blank_step :
      (lines : List RawLine) (f : Frame)
      → is_empty f.name ≡ false
      → f.frame_bytes + 1 ≤ max_line_bytes
      → f.frame_lines + 1 ≤ max_frame_lines
      → next ending (full_line [] ∷ lines) f ≡ (event (event_of f), lines)
  unfolding next trim_return is_blank
  blank_step lines f named fits few =
      let large : ltb max_frame_bytes (f.frame_bytes + 1) ≡ false = ground arith in
      let many : ltb max_frame_lines (f.frame_lines + 1) ≡ false = ground arith in
      let used : is_unused f ≡ false = ground arith in rw (large, many, used) refl

  data_steps :
      (ls : List Text) (body : Text) (f : Frame)
      → is_empty f.name ≡ false
      → All (λ l. has_break l ≡ false) ls
      → f.frame_bytes + data_size ls ≤ max_line_bytes
      → f.frame_lines + (length ls + 1) ≤ max_frame_lines
      → next ending (split_lines (print_data ls body)) f
        ≡ (event (event_of (record f { data_lines = f.data_lines ++ ls })), split_lines body)
  data_steps [] body f named plain fits few =
      rw (split_lines-append [] body refl, append-nil f.data_lines)
        (blank_step (split_lines body) f named fits few)
  data_steps (l ∷ ls) body f named plain fits few =
      let t = data_line l in
      let f' = record (counted t f) { data_lines = f.data_lines ++ l ∷ [] } in
      let rest : next ending (split_lines (print_data ls body)) f' ≡ (
        event (event_of (record f' { data_lines = f.data_lines ++ l ∷ ls })),
        split_lines body,
      ) =
        rw (← append_assoc f.data_lines (l ∷ []) ls)
          (data_steps ls body f' named plain.1 (omega arith) (omega arith)) in
      rw (split_lines-append t (print_data ls body) plain.0) (
        line_step t (split_lines (print_data ls body)) f plain.0 (data_line-blank l) (omega arith)
          (omega arith)
        ∙ rw (data_line-absorb l (counted t f)) rest)

  -- Let the name of an event be not empty, and let neither it nor a line of the data have a line break.
  -- If the event with its data is written within the limits of a line and of a frame's lines, a new
  -- frame reads back that event from the stream, and leaves what was written after it.
  pub next-print_event :
      (name : Text) (ls : List Text) (body : Text)
      → is_empty name ≡ false
      → has_break name ≡ false
      → All (λ l. has_break l ≡ false) ls
      → length name + (8 + data_size ls) ≤ max_line_bytes
      → length ls + 2 ≤ max_frame_lines
      → next ending (split_lines (print_event name ls body)) new_frame ≡ (
        event (record { name = name; data_text = join_lines ls; id = []; comment = [] }),
        split_lines body,
      )
  next-print_event name ls body named plain lines fits few =
      let t = event_line name in
      let f = record (counted t new_frame) { name = name } in
      rw (split_lines-append t (print_data ls body) plain) (
        line_step t (split_lines (print_data ls body)) new_frame plain (event_line-blank name)
          (omega arith) (omega arith)
        ∙ rw (event_line-absorb name (counted t new_frame))
            (data_steps ls body f named lines (omega arith) (omega arith)))
