-- ===== src/Services/Waiting.antt =====
-- context.go: the loop of WaitService, one turn at a time, as other goroutines run between the
-- turns. A channel `svcCh` is told apart by the number of the broadcasts before it.
use stc_go.Base.{
  ℕ, zero, suc, ◌+◌, ◌≤◌, ◌≡◌, sym, ap, ◌∙◌, Bool, false, Option, none, some, arith, if◌then◌else◌,
  ◌==◌,
}
use stc_go.Key.{Key, Any, Reflect, canceled}
use stc_go.Store.{Inverse, ProvideEntry, Shared}
use stc_go.Services.{Result, ok, err, prov_key, provide, add_provide, resolve}
use stc_go.Services.Entries.{new_entry}
use stc_go.Services.Visible.{provided, resolve-provide}

-- Where the caller stands: before the subscription, before `resolve`, in the select with the
-- channel that it subscribed to, or back with the result.
pub data Phase : Type 0 where
  subscribing : Phase
  resolving blocked : ℕ → Phase
  returned : Result Any → Phase

unfoldable pub resolved : ℕ → Option ProvideEntry → Phase
resolved n none = blocked n
resolved n (some e) = returned (ok e.value)

-- One turn. `gives_up` tells whether the select takes the end of the caller's context.
unfoldable pub wait_service_turn : Shared → ℕ → Key → Bool → Phase → Phase
unfolding resolved
wait_service_turn s c key gives_up subscribing = resolving s.svc_wakes
wait_service_turn s c key gives_up (resolving n) = resolved n (resolve s c key)
wait_service_turn s c key gives_up (blocked n) =
    if gives_up
    then returned (err canceled)
    else if s.svc_wakes == n
    then blocked n
    else subscribing
wait_service_turn s c key gives_up (returned e) = returned e

-- The caller waits, on a channel that was there after `m` broadcasts, if it holds one.
abbrev pub HoldsBy : ℕ → Phase → Type 0
HoldsBy m subscribing = Unit
HoldsBy m (resolving n) = n ≤ m
HoldsBy m (blocked n) = n ≤ m
HoldsBy m (returned e) = ⊥

-- The turns that a caller takes who does not give up.
abbrev pub turns : ℕ → Shared → ℕ → Key → Phase → Phase
turns zero s c key p = p
turns (suc n) s c key p = turns n s c key (wait_service_turn s c key false p)

add_provide-svc_wakes :
    (s : Shared) (c : ℕ) (key : Key) (v : Any)
    → (add_provide s c (prov_key s c key) v).1.svc_wakes ≡ s.svc_wakes + 1
unfolding add_provide
add_provide-svc_wakes s c key v = ground arith

turns-resolved :
    (s : Shared) (c : ℕ) (key : Key) (m : ℕ) (p : Phase) (e : ProvideEntry)
    → resolve s c key ≡ some e
    → m + 1 ≤ s.svc_wakes
    → HoldsBy m p
    → turns 3 s c key p ≡ returned (ok e.value)
unfolding wait_service_turn resolved
turns-resolved s c key m subscribing e h k w =
    ap (λ (o : Option ProvideEntry). wait_service_turn s c key false (resolved s.svc_wakes o)) h
turns-resolved s c key m (resolving n) e h k w =
    ap (λ (o : Option ProvideEntry). turns 2 s c key (resolved n o)) h
turns-resolved s c key m (blocked n) e h k w =
    let later : (if s.svc_wakes == n then blocked n else subscribing) ≡ subscribing =
      ground (arith, k, w) in
    ap (turns 2 s c key) later ∙ ap (λ (o : Option ProvideEntry). resolved s.svc_wakes o) h
turns-resolved s c key m (returned x) e h k w = elim w [ ]

-- Where Provide succeeds on a context, a caller of WaitService for the key on that context, who
-- holds no channel or one from before, comes back with the provided value within three turns that
-- nothing interleaves, if it does not give up.
pub turns-provide :
    (r : Reflect) (s u : Shared) (c : ℕ) (key : Key) (v : Any) (i : Inverse) (p : Phase)
    → provide r s c key v ≡ (ok i, u)
    → HoldsBy s.svc_wakes p
    → turns 3 u c key p ≡ returned (ok v)
turns-provide r s u c key v i p h w =
    turns-resolved u c key s.svc_wakes p (new_entry s c v) (resolve-provide r s u c key v i h)
      (let more =
          sym (ap (λ (x : Shared). x.svc_wakes) (provided r s u c key v i h).1)
          ∙ add_provide-svc_wakes s c key v in
        omega (arith, more))
      w
