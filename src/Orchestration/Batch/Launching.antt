-- ===== src/Orchestration/Batch/Launching.antt =====
-- The launch loop of `executeBatch` (orchestration/drive.go): each dispatch is executed at most
-- once, within the permits.
use mathlib.Core.List.{Perm, perm_middle}
use mathlib.Core.List.Perm
use go_hydaelyn.Prelude.{
  ℕ, suc, ◌≤◌, true, Option, none, some, List, [], ◌∷◌, ◌++◌, ◌≡◌, refl, sym, ap, subst, ◌⊎◌, inl,
  inr, map, arith, length, append-nil, append_assoc, length-append,
}
use go_hydaelyn.Orchestration.{Dispatch, DispatchExecution}
use go_hydaelyn.Orchestration.Batch.{
  Progress, launched_batch, Permit, any_failed, BatchStep, launches, reports, aborts, returns,
  cancels, BatchRun, stay, next, Ended,
}

abbrev pub reported : DispatchExecution → Dispatch
reported x = x.dispatch

-- The permits taken are no more than there are.
abbrev pub Within : Option ℕ → ℕ → Type 0
Within none held = Unit
Within (some limit) held = held ≤ limit

pub record BatchSound (limit : Option ℕ) (ds : List Dispatch) (p : Progress) : Type 0 where
  pub all : Perm (map reported p.sent ++ (p.running ++ p.pending)) ds
  pub counted : length p.running ≤ p.held
  pub within : Within limit p.held
  pub because : p.canceled ≡ true → (p.external ≡ true) ⊎ (any_failed p.sent ≡ true)

Within-Permit : (limit : Option ℕ) (held : ℕ) → Permit limit held → Within limit (suc held)
Within-Permit none held h = tt
Within-Permit (some l) held h = omega (arith, h)

Within-fewer : (limit : Option ℕ) (k : ℕ) → Within limit (suc k) → Within limit k
Within-fewer none k h = tt
Within-fewer (some l) k h = omega (arith, h)

map-append :
    (l l' : List DispatchExecution) → map reported (l ++ l') ≡ map reported l ++ map reported l'
map-append [] l' = refl
map-append (x ∷ l) l' = ap (◌∷◌ x.dispatch) (map-append l l')

reported_shape :
    (sent : List DispatchExecution) (x : DispatchExecution) (before after rest : List Dispatch)
    → map reported (sent ++ x ∷ []) ++ ((before ++ after) ++ rest)
      ≡ map reported sent ++ (x.dispatch ∷ (before ++ (after ++ rest)))
reported_shape sent x before after rest =
    rw
      (
        map-append sent (x ∷ []),
        append_assoc (map reported sent) (x.dispatch ∷ []) ((before ++ after) ++ rest),
        append_assoc before after rest,
      )
      refl

any_failed-append :
    (l l' : List DispatchExecution) → any_failed l ≡ true → any_failed (l ++ l') ≡ true
unfolding any_failed
any_failed-append [] l' h = cc
any_failed-append (x ∷ l) l' h = ground (arith, any_failed-append l l')

BatchStep-Sound :
    {limit : Option ℕ} {p p' : Progress} (ds : List Dispatch)
    → BatchStep limit p p'
    → BatchSound limit ds p
    → BatchSound limit ds p'
BatchStep-Sound {limit} {p} ds (launches d rest e live free e') s = rw e' (record {
  all =
      Perm.trans (Perm.append_left (map reported p.sent) (Perm.symm (perm_middle p.running rest)))
        (rw (← e) s.all);
  counted = omega (arith, s.counted);
  within = Within-Permit limit p.held free;
  because = λ c. cc;
})
BatchStep-Sound {limit} {p} ds (reports before after x e e') s = rw e' (record {
  all =
      subst (λ l. Perm l ds) (sym (reported_shape p.sent x before after p.pending))
        (Perm.trans
          (Perm.append_left (map reported p.sent)
            (Perm.symm (perm_middle before (after ++ p.pending))))
          (subst (λ l. Perm (map reported p.sent ++ l) ds)
            (append_assoc before (x.dispatch ∷ after) p.pending)
            (subst (λ l. Perm (map reported p.sent ++ (l ++ p.pending)) ds) e s.all)));
  counted = omega (arith, s.counted, shorter);
  within = s.within;
  because = λ c. because (s.because c);
})
  where
    because :
        (p.external ≡ true) ⊎ (any_failed p.sent ≡ true)
        → (p.external ≡ true) ⊎ (any_failed (p.sent ++ x ∷ []) ≡ true)
    because (inl h) = inl h
    because (inr h) = inr (any_failed-append p.sent (x ∷ []) h)

    shorter : length p.running ≡ suc (length (before ++ after))
    shorter =
        rw e
          (rw (length-append before after, length-append before (x.dispatch ∷ after)) (omega arith))
BatchStep-Sound {limit} {p} ds (aborts failed e') s =
    rw e'
      (record { all = s.all; counted = s.counted; within = s.within; because = λ c. inr failed })
BatchStep-Sound {limit} {p} ds (returns k e few e') s = rw e' (record {
  all = s.all;
  counted = few;
  within = Within-fewer limit k (rw (← e) s.within);
  because = s.because;
})
BatchStep-Sound {limit} {p} ds (cancels e') s =
    rw e' (record { all = s.all; counted = s.counted; within = s.within; because = λ c. inl refl })

start-Sound : (limit : Option ℕ) (ds : List Dispatch) → BatchSound limit ds (launched_batch ds)
start-Sound limit ds = record {
  all = Perm.refl ds;
  counted = omega arith;
  within = none_held limit;
  because = λ c. cc;
}
  where
    none_held : (o : Option ℕ) → Within o 0
    none_held none = tt
    none_held (some l) = omega arith

pub run-Sound :
    {limit : Option ℕ} (ds : List Dispatch) {p : Progress}
    → BatchRun limit (launched_batch ds) p
    → BatchSound limit ds p
run-Sound {limit} ds stay = start-Sound limit ds
run-Sound ds (next before step) = BatchStep-Sound ds step (run-Sound ds before)

-- However the launch loop, the goroutines and the caller's context interleave, no more dispatches
-- run at once than there are permits, and at every moment what was reported, what runs and what
-- waits is together exactly the batch: no dispatch is executed twice or lost.
pub batch_bounded :
    (limit : ℕ) (ds : List Dispatch) (p : Progress)
    → BatchRun (some limit) (launched_batch ds) p
    → (length p.running ≤ limit) × Perm (map reported p.sent ++ (p.running ++ p.pending)) ds
batch_bounded limit ds p run =
    let s = run-Sound ds run in (omega (arith, s.counted, s.within), s.all)

-- When every goroutine has returned, either the reports are of all dispatches of the batch, each
-- once, or the caller's context was canceled, or an executor failed.
pub batch_complete :
    (limit : Option ℕ) (ds : List Dispatch) (p : Progress)
    → BatchRun limit (launched_batch ds) p
    → Ended p
    → Perm (map reported p.sent) ds ⊎ ((p.external ≡ true) ⊎ (any_failed p.sent ≡ true))
batch_complete limit ds p run e = go e.left
  where
    go :
        (p.pending ≡ []) ⊎ (p.canceled ≡ true)
        → Perm (map reported p.sent) ds ⊎ ((p.external ≡ true) ⊎ (any_failed p.sent ≡ true))
    go (inl none_left) =
        let all : Perm (map reported p.sent ++ ([] ++ [])) ds =
          subst (λ l. Perm (map reported p.sent ++ (l ++ [])) ds) e.idle
            (subst (λ l. Perm (map reported p.sent ++ (p.running ++ l)) ds) none_left
              (run-Sound ds run).all) in
        inl (subst (λ l. Perm l ds) (append-nil (map reported p.sent)) all)
    go (inr c) = inr ((run-Sound ds run).because c)
