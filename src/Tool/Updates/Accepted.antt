-- ===== src/Tool/Updates/Accepted.antt =====
-- The updates that reach the sink of a tool call (tool/update.go).
use go_hydaelyn.Prelude.{
  ℕ, suc, ◌+◌, ◌-◌, ◌≤◌, ltb, leb, Bool, true, false, Option, none, some, List, [], ◌∷◌, ◌++◌, ◌≡◌,
  refl, sym, ◌∙◌, Text, length, arith, if◌then◌else◌, append-nil, append_assoc, length-append,
}
use go_hydaelyn.Message.{ContentPart, ToolCall}
use go_hydaelyn.Tool.{Update, UpdateError, emitted_after_return, count_limit, byte_limit}
use go_hydaelyn.Tool.Updates.{
  max_updates, max_update_bytes, Sink, UpdateState, new_state, validate_update, is_output,
  decoded_update_bytes, Emitted, fails, stamped, count_update, answered, deliver, emit_valid,
  checked_emit, unless_failed, emit,
}

abbrev pub sent_of : Option Update → List Update
sent_of none = []
sent_of (some u) = u ∷ []

-- The updates that a driver emits one after another, whatever each call returns to it: the state
-- at the end, and what the sink was given.
unfoldable pub emit_all :
    ToolCall → Option Sink → UpdateState → List Update → UpdateState × List Update
unfolding emit
emit_all call sink s [] = (s, [])
emit_all call sink s (u ∷ us) =
    let e = emit call sink s u in
    let (last, log) = emit_all call sink e.state us in (last, sent_of e.sent ++ log)

-- Updates of the call, numbered from `n`.
abbrev pub Numbered : ToolCall → ℕ → List Update → Type 0
Numbered call n [] = Unit
Numbered call n (u ∷ us) = (u.sequence ≡ n) × (u.tool_call_id ≡ call.id) × Numbered call (suc n) us

unfoldable pub total_bytes : List Update → ℕ
total_bytes [] = 0
total_bytes (u ∷ us) = decoded_update_bytes u + total_bytes us

unfoldable pub streamed_parts : List Update → List ContentPart
streamed_parts [] = []
streamed_parts (u ∷ us) = (if is_output u.kind then u.parts else []) ++ streamed_parts us

-- The state `s` when the sink was given `log`.
pub record StreamSound (call : ToolCall) (s : UpdateState) (log : List Update) : Type 0 where
  pub numbered : Numbered call 1 log
  pub number : s.count ≡ length log
  pub size : s.size ≡ total_bytes log
  pub content : s.content ≡ streamed_parts log
  pub within_count : s.count ≤ max_updates
  pub within_size : s.size ≤ max_update_bytes

Numbered-append :
    (call : ToolCall) (n : ℕ) (log : List Update) (u : Update)
    → Numbered call n log
    → u.sequence ≡ n + length log
    → u.tool_call_id ≡ call.id
    → Numbered call n (log ++ u ∷ [])
Numbered-append call n [] u h e i = (e ∙ omega arith, i, tt)
Numbered-append call n (x ∷ log) u h e i =
    (h.0, h.1, Numbered-append call (suc n) log u h.2 (e ∙ omega arith) i)

total_bytes-append :
    (log : List Update) (u : Update)
    → total_bytes (log ++ u ∷ []) ≡ total_bytes log + decoded_update_bytes u
unfolding total_bytes
total_bytes-append [] u = omega arith
total_bytes-append (x ∷ log) u = omega (arith, total_bytes-append log u)

streamed_parts-append :
    (log : List Update) (u : Update)
    → streamed_parts (log ++ u ∷ [])
      ≡ streamed_parts log ++ (if is_output u.kind then u.parts else [])
unfolding streamed_parts
streamed_parts-append [] u = append-nil (if is_output u.kind then u.parts else [])
streamed_parts-append (x ∷ log) u = rw (streamed_parts-append log u) (
    sym (
      append_assoc (if is_output x.kind then x.parts else []) (streamed_parts log)
        (if is_output u.kind then u.parts else [])))

-- What one call makes of a sound stream.
record Streams (call : ToolCall) (log : List Update) (e : Emitted) : Type 0 where
  sound : StreamSound call e.state (log ++ sent_of e.sent)

module _ (call : ToolCall) (log : List Update) where
  quiet :
      (s : UpdateState) (e : Option UpdateError)
      → StreamSound call s log
      → Streams call log (record { error = e; state = s; sent = none })
  quiet s e h = record { sound = rw (append-nil log) h }

  failing :
      (s : UpdateState) (e : UpdateError)
      → StreamSound call s log
      → Streams call log (fails e s none)
  failing s e h = record {
    sound = rw (append-nil log) (record {
      numbered = h.numbered;
      number = h.number;
      size = h.size;
      content = h.content;
      within_count = h.within_count;
      within_size = h.within_size;
    });
  }

  answering :
      (s : UpdateState) (u : Update) (o : Option Text)
      → StreamSound call s (log ++ u ∷ [])
      → Streams call log (answered s u o)
  answering s u none h = record { sound = h }
  answering s u (some e) h = record {
    sound = record {
      numbered = h.numbered;
      number = h.number;
      size = h.size;
      content = h.content;
      within_count = h.within_count;
      within_size = h.within_size;
    };
  }

  Streams-if :
      (b : Bool) (o k : Emitted)
      → Streams call log o
      → (b ≡ false → Streams call log k)
      → Streams call log (if b then o else k)
  Streams-if true o k p t = p
  Streams-if false o k p t = t refl

  counting :
      (s : UpdateState) (u : Update)
      → StreamSound call s log
      → leb max_updates s.count ≡ false
      → ltb (max_update_bytes - s.size) (decoded_update_bytes (stamped call s.count u)) ≡ false
      → StreamSound call
          (count_update s (stamped call s.count u))
          (log ++ stamped call s.count u ∷ [])
  unfolding count_update
  counting s u h few small =
      let filled = stamped call s.count u in
      record {
        numbered = Numbered-append call 1 log filled h.numbered (omega (arith, h.number)) refl;
        number = rw (length-append log (filled ∷ [])) (omega (arith, h.number));
        size = rw (total_bytes-append log filled) (omega (arith, h.size));
        content = rw (streamed_parts-append log filled) (outputs (is_output u.kind) s u h.content);
        within_count = ground arith;
        within_size = ground (arith, h.within_size);
      }
    where
      outputs :
          (b : Bool) (s : UpdateState) (u : Update)
          → s.content ≡ streamed_parts log
          → (if b then s.content ++ u.parts else s.content)
            ≡ streamed_parts log ++ (if b then u.parts else [])
      outputs true s u e = rw e refl
      outputs false s u e = rw (append-nil (streamed_parts log)) e

  emit_valid-Streams :
      (sink : Sink) (s : UpdateState) (u : Update)
      → StreamSound call s log
      → Streams call log (emit_valid call (some sink) s u)
  unfolding emit_valid deliver
  emit_valid-Streams sink s u h =
      let filled = stamped call s.count u in
      Streams-if (leb max_updates s.count) _ _ (failing s count_limit h) (λ few.
        Streams-if (ltb (max_update_bytes - s.size) (decoded_update_bytes filled)) _ _
          (failing s byte_limit h)
          (λ small.
            answering (count_update s filled) filled (sink filled) (counting s u h few small)))

  checking :
      (o : Option UpdateError) (s : UpdateState) (k : Emitted)
      → StreamSound call s log
      → Streams call log k
      → Streams call log (checked_emit o s k)
  checking none s k h t = t
  checking (some e) s k h t = failing s e h

  unless :
      (o : Option UpdateError) (s : UpdateState) (k : Emitted)
      → StreamSound call s log
      → Streams call log k
      → Streams call log (unless_failed o s k)
  unless none s k h t = t
  unless (some e) s k h t = quiet s (some e) h

  emit-Streams :
      (sink : Sink) (s : UpdateState) (u : Update)
      → StreamSound call s log
      → Streams call log (emit call (some sink) s u)
  unfolding emit
  emit-Streams sink s u h =
      Streams-if s.closed _ _ (quiet s (some emitted_after_return) h) (λ open_one.
        unless s.failure s _ h (checking (validate_update u) s _ h (emit_valid-Streams sink s u h)))

emit_all-Sound :
    (call : ToolCall) (sink : Sink) (us log : List Update) (s : UpdateState)
    → StreamSound call s log
    → StreamSound call
        (emit_all call (some sink) s us).0
        (log ++ (emit_all call (some sink) s us).1)
unfolding emit_all
emit_all-Sound call sink [] log s h = rw (append-nil log) h
emit_all-Sound call sink (u ∷ us) log s h =
    let e = emit call (some sink) s u in
    let rest =
      emit_all-Sound call sink us (log ++ sent_of e.sent) e.state
        (emit-Streams call log sink s u h).sound in
    rw (← append_assoc) rest

-- Whatever updates a driver emits and whatever its sink answers, the sink gets updates of this call
-- that are numbered from 1 without a gap, at most 65536 of them and at most 64 MiB, and the output
-- that is kept is what the output updates among them carried, in order.
pub emitted-StreamSound :
    (call : ToolCall) (sink : Sink) (us : List Update)
    → StreamSound call
        (emit_all call (some sink) new_state us).0
        (emit_all call (some sink) new_state us).1
unfolding total_bytes streamed_parts
emitted-StreamSound call sink us = emit_all-Sound call sink us [] new_state (record {
  numbered = tt;
  number = refl;
  size = refl;
  content = refl;
  within_count = omega arith;
  within_size = omega arith;
})
