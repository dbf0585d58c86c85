-- ===== src/Limiter/Progress.antt =====
-- server/exec_request_limiter.py: when a request is rejected, and to whom a slot goes that is given
-- back.
use kimina_lean_server.Base.{
  false, refl, remove, ◌-◌, length-remove, mem-append, true, List, ℕ, suc, ◌+◌, ◌≡◌, length, arith,
  [], ◌∷◌, ◌++◌, mem, ℕ_discrete,
}
use mathlib.Core.Logic.{if_pos}
use kimina_lean_server.Base.Int.{pos, reached}
use kimina_lean_server.Limiter.{admitted, wake, resume, release, Limiter, rejected, acquire}
use kimina_lean_server.Limiter.Invariant.{IsValid}

-- Only a full limiter rejects: then exactly `max_in_flight` tasks hold a slot, exactly `max_queued`
-- are in the queue, and nothing changed.
pub acquire_rejected :
    (t : ℕ) (l : Limiter)
    → IsValid l
    → (acquire t l).1 ≡ rejected
    → (l.max_in_flight ≡ pos (length l.holders))
      × (l.max_queued ≡ pos (length l.waiting + length l.woken + length l.interrupted))
      × ((acquire t l).0 ≡ l)
unfolding acquire
acquire_rejected t l v h = (ground arith, ground arith, ground arith)

mem-cons_self : (w : ℕ) (ls : List ℕ) → mem ℕ_discrete w (w ∷ ls) ≡ true
unfolding mem
mem-cons_self w ls = rw (if_pos (ℕ_discrete w w) refl) refl

-- A slot that is given back is not lost: if tasks wait for one, the first of them, and no other, is
-- taken out of the queue and woken, and if nothing takes the slot before it runs again, it gets in
-- and holds the slot.
pub release_hands_over :
    (m t w : ℕ) (rest : List ℕ) (l : Limiter)
    → IsValid l
    → l.max_in_flight ≡ pos (suc m)
    → l.waiting ≡ w ∷ rest
    → mem ℕ_discrete t l.holders ≡ true
    → let l' = release t l in
      (l'.waiting ≡ rest)
      × (l'.woken ≡ l.woken ++ w ∷ [])
      × (mem ℕ_discrete w l'.woken ≡ true)
      × ((resume w l').1 ≡ admitted)
      × (mem ℕ_discrete w (resume w l').0.holders ≡ true)
unfolding release resume wake
release_hands_over m t w rest l v bound queue holds =
    let woken = mem-append ℕ_discrete w l.woken (w ∷ []) in
    let shorter = length-remove ℕ_discrete t l.holders holds in
    let found = mem-cons_self w [] in
    let holds_now = mem-cons_self w (remove ℕ_discrete t l.holders) in
    let room : reached (pos (suc m)) (l.in_flight - 1) ≡ false = ground (arith, shorter, bound) in
    rw (queue, bound, room) (refl, refl, ground (arith, woken, found), refl, holds_now)
