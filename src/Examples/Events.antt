-- ===== src/Examples/Events.antt =====
-- An event of two lines, read from a stream (provider/shared/sse.go).
use go_hydaelyn.Prelude.{
  ◌≡◌, refl, Option, none, some, List, [], ◌∷◌, Text, lit, arith, nat_eq, text_eq_instance,
}
use go_hydaelyn.Provider.Sse.{event, eof, unexpected_eof, next, split_lines, new_frame, join_lines}
use go_hydaelyn.Provider.Sse.Printed.{print_event, next-print_event}

abbrev ping : Text
ping = 112 ∷ []

abbrev two_lines : List Text
two_lines = (97 ∷ 58 ∷ 32 ∷ []) ∷ [] ∷ []

-- A frame that the end of the body cuts off.
cut_off :
    (next none (split_lines (100 ∷ 97 ∷ 116 ∷ 97 ∷ 58 ∷ 49 ∷ [])) new_frame).0
    ≡ unexpected_eof (record { name = []; data_text = 49 ∷ []; id = []; comment = [] })
unfolding next split_lines go_hydaelyn.Provider.Sse.trim_return go_hydaelyn.Prelude.is_blank
    go_hydaelyn.Provider.Sse.absorb go_hydaelyn.Provider.Sse.with_field go_hydaelyn.Prelude.text_eq
    go_hydaelyn.Provider.Sse.parse_sse_line go_hydaelyn.Provider.Sse.cut_colon join_lines
cut_off = refl

next-print_event_example :
    next none (split_lines (print_event ping two_lines (58 ∷ 10 ∷ []))) new_frame ≡ (
      event (record { name = ping; data_text = join_lines two_lines; id = []; comment = [] }),
      split_lines (58 ∷ 10 ∷ []),
    )
next-print_event_example =
    next-print_event none ping two_lines (58 ∷ 10 ∷ []) refl refl (refl, (refl, tt)) (omega arith)
      (omega arith)
