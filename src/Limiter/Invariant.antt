-- ===== src/Limiter/Invariant.antt =====
-- server/exec_request_limiter.py: the caps hold, and no wake-up is lost.
use kimina_lean_server.Base.{
  refl, ◌-◌, remove, inr, inl, Bool-cases, List, ◌||◌, length-remove, ℕ_discrete, mem, ℕ, ◌+◌, ◌≡◌,
  ◌⊎◌, true, some, [], ◌∷◌, length, length-append, arith,
}
use kimina_lean_server.Base.Int.{AtMost, ℤ, pos, negsuc, is_negative, reached}
use kimina_lean_server.Limiter.{
  here, next, leaves, gives_up, interrupts, resumes, next, arrives, Reach, Step, wake, release,
  give_up, interrupt, resume, Limiter, init, acquire,
}

-- Every slot that is free is promised to a task that runs again soon.
abbrev Promised : Limiter → Type 0
Promised l =
    (l.waiting ≡ [])
    ⊎ (reached l.max_in_flight (l.in_flight + length l.woken + length l.interrupted) ≡ true)

pub record IsValid (l : Limiter) : Type 0 where
  pub counted : l.in_flight ≡ length l.holders
  pub queue_counted : l.queued ≡ length l.waiting + length l.woken + length l.interrupted
  pub in_cap : AtMost l.in_flight l.max_in_flight
  pub queue_cap : AtMost l.queued l.max_queued
  pub promised : Promised l
  pub unbounded : is_negative l.max_in_flight ≡ true → l.queued ≡ 0

init-IsValid : (a b : ℤ) (l : Limiter) → init a b ≡ some l → IsValid l
unfolding init
init-IsValid (pos a) (pos b) l h = ground arith
init-IsValid (pos a) (negsuc b) l h = ground arith
init-IsValid (negsuc a) (pos b) l h = ground arith
init-IsValid (negsuc a) (negsuc b) l h = ground arith

acquire-IsValid : (t : ℕ) (l : Limiter) → IsValid l → IsValid (acquire t l).0
unfolding acquire
acquire-IsValid t l v = ground (arith, length-append l.waiting (t ∷ []))

resume-IsValid :
    (t : ℕ) (l : Limiter) → mem ℕ_discrete t l.woken ≡ true → IsValid l → IsValid (resume t l).0
unfolding resume
resume-IsValid t l m v =
    ground (arith, length-append l.waiting (t ∷ []), length-remove ℕ_discrete t l.woken m)

interrupt-IsValid :
    (t : ℕ) (l : Limiter)
    → (mem ℕ_discrete t l.waiting || mem ℕ_discrete t l.woken) ≡ true
    → IsValid l
    → IsValid (interrupt t l)
unfolding interrupt
interrupt-IsValid t l m v =
    ground (arith, length-remove ℕ_discrete t l.waiting, length-remove ℕ_discrete t l.woken)

-- What `notify` needs: one free slot may be promised to nobody yet.
record IsOpen (l : Limiter) : Type 0 where
  counted : l.in_flight ≡ length l.holders
  queue_counted : l.queued ≡ length l.waiting + length l.woken + length l.interrupted
  in_cap : AtMost l.in_flight l.max_in_flight
  queue_cap : AtMost l.queued l.max_queued
  owed :
      (l.waiting ≡ [])
      ⊎ (reached l.max_in_flight (l.in_flight + length l.woken + length l.interrupted + 1) ≡ true)
  unbounded : is_negative l.max_in_flight ≡ true → l.queued ≡ 0

wake-IsValid : (w : List ℕ) (l : Limiter) → l.waiting ≡ w → IsOpen l → IsValid (wake w l)
unfolding wake
wake-IsValid [] l e v = ground arith
wake-IsValid (t ∷ rest) l e v = ground (arith, length-append l.woken (t ∷ []))

give_up-IsValid :
    (t : ℕ) (l : Limiter)
    → mem ℕ_discrete t l.interrupted ≡ true
    → IsValid l
    → IsValid (give_up t l)
unfolding give_up
give_up-IsValid t l m v =
    wake-IsValid l.waiting
      (record l { queued = l.queued - 1; interrupted = remove ℕ_discrete t l.interrupted }) refl
      (ground (arith, length-remove ℕ_discrete t l.interrupted m))

release-IsValid :
    (t : ℕ) (l : Limiter) → mem ℕ_discrete t l.holders ≡ true → IsValid l → IsValid (release t l)
unfolding release
release-IsValid t l m v = elim (Bool-cases (is_negative l.max_in_flight)) [
  | inl e ↦ rw e (ground (arith, length-remove ℕ_discrete t l.holders m))
  | inr e ↦ rw e (
      wake-IsValid l.waiting
        (record l { in_flight = l.in_flight - 1; holders = remove ℕ_discrete t l.holders }) refl
        (ground (arith, length-remove ℕ_discrete t l.holders m)))
]

pub Step-IsValid : {l m : Limiter} → Step l m → IsValid l → IsValid m
Step-IsValid {l} (arrives t) v = acquire-IsValid t l v
Step-IsValid {l} (resumes t h) v = resume-IsValid t l h v
Step-IsValid {l} (interrupts t h) v = interrupt-IsValid t l h v
Step-IsValid {l} (gives_up t h) v = give_up-IsValid t l h v
Step-IsValid {l} (leaves t h) v = release-IsValid t l h v

Reach-IsValid : {l m : Limiter} → IsValid l → Reach l m → IsValid m
Reach-IsValid v here = v
Reach-IsValid v (next r s) = Step-IsValid s (Reach-IsValid v r)

-- In every state that a new limiter can reach, `in_flight` counts the tasks that hold a slot and
-- `queued` those that wait, both are within their caps, and as long as a task sleeps in the queue,
-- the holders and the tasks about to run again use up every slot.
pub limiter_reachable-IsValid :
    (a b : ℤ) {l m : Limiter} → init a b ≡ some l → Reach l m → IsValid m
limiter_reachable-IsValid a b e r = Reach-IsValid (init-IsValid a b _ e) r
