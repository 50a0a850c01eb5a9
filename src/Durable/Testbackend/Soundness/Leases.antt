-- ===== src/Durable/Testbackend/Soundness/Leases.antt =====
-- What each change does to the leases and attempts of a sound record (durable/internal/testbackend).
use go_hydaelyn.Prelude.{
  ℕ, ◌≡◌, refl, Bool, true, false, ◌||◌, Option, none, some, List, [], ◌∷◌, inl, Text, nat_eq,
  text_eq_instance, text_eq_iff, arith, All,
}
use go_hydaelyn.Prelude.Assoc.{Map, Entries}
use go_hydaelyn.Prelude.Int.{ℤ}
use go_hydaelyn.Durable.{Lease, LeaseRef, Attempt, AttemptStatus, running, ExecutionStatus}
use go_hydaelyn.Durable.Testbackend.Store.{
  ExecutionRecord, holds_lease, lease_matches, is_running, is_unknown,
}
use go_hydaelyn.Durable.Testbackend.Executions.{claim}
use go_hydaelyn.Durable.Testbackend.Lifecycle.{extend}
use go_hydaelyn.Durable.Testbackend.Endings.{has_uncertain, uncertain_among}
use go_hydaelyn.Durable.Testbackend.Soundness.{
  IsSound, LeaseSound, SlotSound, AttemptSound, StatusSound, Held, Reaches, expire_all-Sound,
}

or_false : (a b : Bool) → a || b ≡ false → (a ≡ false) × (b ≡ false)
or_false a b h = ground arith

pub Reaches-zero : (lease : Option Lease) → Reaches 0 lease
Reaches-zero none = tt
Reaches-zero (some l) = inl refl

pub claim-IsSound :
    (r : ExecutionRecord) (owner : Text) (id : List ℕ) (ttl : ℤ) (now : ℕ)
    → IsSound r
    → IsSound (claim r owner id ttl now)
unfolding claim
claim-IsSound r owner id ttl now s = record {
  lease = (refl, refl);
  finished = tt;
  slots =
      expire_all-Sound 0 r.execution.lease _ r.attempts (Reaches-zero r.execution.lease) s.slots;
}

-- The lease in force, where a reference matches it.
pub Reaches-matched :
    (lease : Option Lease) (ref : LeaseRef)
    → lease_matches lease ref ≡ true
    → Reaches ref.token lease
unfolding lease_matches
Reaches-matched none ref h = cc
Reaches-matched (some l) ref h = ground arith

pub Held-matched :
    (lease : Option Lease) (ref : LeaseRef) → lease_matches lease ref ≡ true → Held (some ref) lease
unfolding lease_matches
Held-matched none ref h = cc
Held-matched (some l) ref h = ground (arith, text_eq_iff l.owner_id ref.owner_id)

pub holds_matches :
    (r : ExecutionRecord) (ref : LeaseRef) (now : ℕ)
    → holds_lease r ref now ≡ true
    → lease_matches r.execution.lease ref ≡ true
unfolding holds_lease
holds_matches r ref now h = ground arith

-- A matched lease belongs to a running execution.
pub matched_running :
    (lease : Option Lease) (next : ℕ) (status : ExecutionStatus) (ref : LeaseRef)
    → LeaseSound lease next status
    → lease_matches lease ref ≡ true
    → (status ≡ ExecutionStatus.running) × (ref.token ≡ next)
unfolding lease_matches
matched_running none next status ref s h = cc
matched_running (some l) next status ref s h = ground arith

-- Attempts under a lease that was extended.
extend-StatusSound :
    (status : AttemptStatus) (q : Option LeaseRef) (lease : Option Lease) (t : ℕ)
    → StatusSound status q lease
    → StatusSound status q (extend lease t)
extend-StatusSound running none none t s = s
extend-StatusSound running none (some l) t s = s
extend-StatusSound running (some q) none t s = s
extend-StatusSound running (some q) (some l) t s = s
extend-StatusSound _ q lease t s = s

module _ (P Q : Text → List Attempt → Type 0)
    (f : (op : Text) (l : List Attempt) → P op l → Q op l) where
  Entries-map : (m : Map Text (List Attempt)) → Entries P m → Entries Q m
  Entries-map [] s = tt
  Entries-map ((op, l) ∷ m) s = (f op l s.0, Entries-map m s.1)

All-extend :
    (lease : Option Lease) (t : ℕ) (op : Text) (l : List Attempt)
    → All (AttemptSound lease op) l
    → All (AttemptSound (extend lease t) op) l
All-extend lease t op [] s = tt
All-extend lease t op (a ∷ l) s = (
  record { slot = s.0.slot; leased = extend-StatusSound a.status a.lease lease t s.0.leased },
  All-extend lease t op l s.1,
)

pub extend-Sound :
    (lease : Option Lease) (t : ℕ) (m : Map Text (List Attempt))
    → Entries (SlotSound lease) m
    → Entries (SlotSound (extend lease t)) m
extend-Sound lease t =
    Entries-map (SlotSound lease) (SlotSound (extend lease t))
      (λ op l s. (s.0, All-extend lease t op l s.1))

pub extend-LeaseSound :
    (lease : Option Lease) (t next : ℕ) (status : ExecutionStatus)
    → LeaseSound lease next status
    → LeaseSound (extend lease t) next status
extend-LeaseSound none t next status s = s
extend-LeaseSound (some l) t next status s = s

-- With no uncertain attempt nothing runs, under whatever lease.
quiet-StatusSound :
    (status : AttemptStatus) (q : Option LeaseRef) (lease lease' : Option Lease)
    → is_running status || is_unknown status ≡ false
    → StatusSound status q lease
    → StatusSound status q lease'
quiet-StatusSound running q lease lease' h s = absurd (cc h)
quiet-StatusSound _ q lease lease' h s = s

quiet-All :
    (lease lease' : Option Lease) (op : Text) (l : List Attempt)
    → uncertain_among l ≡ false
    → All (AttemptSound lease op) l
    → All (AttemptSound lease' op) l
unfolding uncertain_among
quiet-All lease lease' op [] h s = tt
quiet-All lease lease' op (a ∷ l) h s = (
  record {
    slot = s.0.slot;
    leased = quiet-StatusSound a.status a.lease lease lease' (or_false _ _ h).0 s.0.leased;
  },
  quiet-All lease lease' op l (or_false _ _ h).1 s.1,
)

pub quiet-Sound :
    (lease lease' : Option Lease) (m : Map Text (List Attempt))
    → has_uncertain m ≡ false
    → Entries (SlotSound lease) m
    → Entries (SlotSound lease') m
unfolding has_uncertain
quiet-Sound lease lease' [] h s = tt
quiet-Sound lease lease' ((op, l) ∷ m) h s = (
  (s.0.0, quiet-All lease lease' op l (or_false _ _ h).0 s.0.1),
  quiet-Sound lease lease' m (or_false _ _ h).1 s.1,
)
