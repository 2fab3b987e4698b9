-- ===== src/Registry/Safety.antt =====
-- What the registry promises the requests, in every state they reach.
use mnemon.Prelude.{
  ℕ, ◌≤◌, ◌<◌, ◌≡◌, true, false, String, none, some, count, arith, Option-cases, inl, inr,
}
use mnemon.Prelude.Store.{Ref}
use mnemon.Prelude.Dict.{lookup}
use mnemon.Registry.Ops.{open_stores}
use mnemon.Registry.System.{System, init, Reach}
use mnemon.Registry.Sound.{IsSound, holders, handed, Reach-IsSound}

-- In every reachable state an entry is handed over to be closed at most once, and one that a request
-- holds is neither closed nor handed over; if its store is not open yet, the request that opens it is still there.
pub held-open :
    (limit : ℕ) {x : System}
    → Reach (init limit) x
    → (r : Ref)
    → (handed x r ≤ 1)
      × (0 < holders x r → ((x.reg.heap r).closed ≡ false) × (handed x r ≡ 0))
      × (0 < holders x r → (x.reg.heap r).ready ≡ false → 0 < count r x.opening)
held-open limit {x} path r =
    let s : IsSound x = Reach-IsSound limit path in
    (
      ground (arith, s.tidy.once r),
      ground (arith, s.tidy.once r, s.tidy.idle r),
      ground (arith, s.opener r, s.tidy.fresh r, s.tidy.refs r),
    )

-- In every reachable state with more open stores than the limit, a request holds each of them.
pub over_limit-held :
    (limit : ℕ) {x : System}
    → Reach (init limit) x
    → x.reg.limit < open_stores x.reg
    → (key : String) (r : Ref) → lookup key x.reg.entries ≡ some r
    → 0 < holders x r
unfolding open_stores
over_limit-held limit {x} path over key r e =
    let s : IsSound x = Reach-IsSound limit path in
    ground (arith, s.full r, s.tidy.resolves key r, s.tidy.listed r, e)

-- In every reachable state after the close nothing is cached, and an entry that no request holds any more
-- has been handed over to be closed exactly once.
pub shutdown-closed :
    (limit : ℕ) {x : System}
    → Reach (init limit) x
    → x.reg.closing ≡ true
    → ((key : String) → lookup key x.reg.entries ≡ none)
      × ((r : Ref) → r < x.reg.next_ref → holders x r ≡ 0 → handed x r ≡ 1)
shutdown-closed limit {x} path closing =
    let s : IsSound x = Reach-IsSound limit path in
    (
      λ key. elim (Option-cases (lookup key x.reg.entries)) [
        | inl e ↦ e
        | inr (r, e) ↦ absurd (ground (arith, e, s.tidy.resolves key r, s.shut r))
      ],
      λ r. ground (arith, s.shut r, s.settled r, s.tidy.refs r, s.tidy.once r),
    )
