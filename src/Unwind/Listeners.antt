-- ===== src/Unwind/Listeners.antt =====
-- What a part of an unwinding does to the listeners.
use stc_go.Base.{
  ℕ, ◌<◌, ◌≤◌, ◌≡◌, ◌≢◌, refl, sym, subst, Option, List, [], ◌∷◌, inl, inr, All, All-imp, All-zip,
  All-drop_first, All-every, ap, In, arith, true, false, or_else, drop_first, ite, ℕ_discrete,
}
use stc_go.Key.{Text, Text-discrete, Error}
use stc_go.Store.{
  ProvKey, ProvideEntry, Shared, Inverse, unprovide, unisolate, unintercept, unlisten, user,
  ListenerEntry, listeners_of,
}
use stc_go.Store.Maps.{listeners-insert}
use stc_go.Services.{put_entries, remove_provide}
use stc_go.Scope.{detach}
use stc_go.Unwind.{run_inverse, run_inverses, begin_unwind}
use stc_go.Unwind.Spared.{unw}
use stc_go.Unwind.Subtree.{begin_live}

-- The listeners of an event.
abbrev pub heard : Shared → Text → List ListenerEntry
heard s q = listeners_of s.listeners q

-- Later listeners have greater numbers.
abbrev pub Ascends : ℕ → List ListenerEntry → Type 0
Ascends n [] = Unit {0}
Ascends n (l ∷ ls) = (n < l.id) × Ascends l.id ls

-- The listener is withdrawn when its scope is unwound, if that was not yet.
abbrev pub Attended : Shared → Text → ListenerEntry → Type 0
Attended s q l = unw s l.owner ≡ false → In (unlisten q l.id) (s.contexts l.owner).inverses

pub record IsAttended (s : Shared) : Type 0 where
  pub attended : (q : Text) → All (Attended s q) (heard s q)
  pub ascending : (q : Text) → Ascends 0 (heard s q)

-- Listeners only leave.
pub record Thinner (s t : Shared) : Type 1 where
  pub fewer : (q : Text) (P : ListenerEntry → Type 0) → All P (heard s q) → All P (heard t q)
  pub ascending : (q : Text) (n : ℕ) → Ascends n (heard s q) → Ascends n (heard t q)

pub Thinner-same : (s t : Shared) → ((q : Text) → heard t q ≡ heard s q) → Thinner s t
Thinner-same s t e = record { fewer = λ q P v. rw (e q) v; ascending = λ q n v. rw (e q) v }

pub Thinner-trans : {s t u : Shared} → Thinner s t → Thinner t u → Thinner s u
Thinner-trans a b = record {
  fewer = λ q P v. b.fewer q P (a.fewer q P v);
  ascending = λ q n v. b.ascending q n (a.ascending q n v);
}

-- No listener is left of a scope that was unwound between the two states.
abbrev pub Silenced : Shared → Shared → Type 0
Silenced s t = (q : Text) → All (λ l. unw t l.owner ≡ true → unw s l.owner ≡ true) (heard t q)

-- Taking out a number.
Ascends-weaken : (m n : ℕ) (ls : List ListenerEntry) → m < n → Ascends n ls → Ascends m ls
Ascends-weaken m n [] h r = tt
Ascends-weaken m n (x ∷ xs) h r = (omega (arith, h, r.0), r.1)

Ascends-drop_first :
    (n id : ℕ) (ls : List ListenerEntry)
    → Ascends n ls
    → Ascends n (drop_first (λ l. ℕ_discrete l.id id) ls)
unfolding drop_first
Ascends-drop_first n id [] r = tt
Ascends-drop_first n id (x ∷ xs) r =
    ground (arith, Ascends-drop_first x.id id xs r.1, Ascends-weaken n x.id xs)

above : (n id : ℕ) (ls : List ListenerEntry) → id ≤ n → Ascends n ls → All (λ l. l.id ≢ id) ls
above n id [] h r = tt
above n id (x ∷ xs) h r =
    ((λ e. omega (arith, h, r.0, e)), above x.id id xs (omega (arith, h, r.0)) r.1)

drop_first-without :
    (n id : ℕ) (ls : List ListenerEntry)
    → Ascends n ls
    → All (λ l. l.id ≢ id) (drop_first (λ l. ℕ_discrete l.id id) ls)
unfolding drop_first
drop_first-without n id [] r = tt
drop_first-without n id (x ∷ xs) r =
    elim (ℕ_discrete x.id id)
      as (λ d. All (λ l. l.id ≢ id) (ite d xs (x ∷ drop_first (λ l. ℕ_discrete l.id id) xs))) [
        | yes p ↦ above x.id id xs (omega (arith, p)) r.1
        | no p ↦ (p, drop_first-without x.id id xs r.1)
      ]

listeners-put_entries :
    (pk : ProvKey) (es : List ProvideEntry) (s : Shared)
    → (put_entries pk es s).listeners ≡ s.listeners
unfolding put_entries
listeners-put_entries pk [] s = refl
listeners-put_entries pk (e ∷ es) s = refl

pub listeners-remove_provide :
    (s : Shared) (pk : ProvKey) (e : ProvideEntry) → (remove_provide s pk e).listeners ≡ s.listeners
unfolding remove_provide
listeners-remove_provide s pk e = ground (arith, listeners-put_entries pk _ s)

id_of : Inverse → ℕ
id_of (unlisten n id) = id
id_of _ = 0

event_of : Text → Inverse → Text
event_of q (unlisten n id) = n
event_of q _ = q

module _ (outcome : ℕ → Option Error) where
  without_one :
      (s : Shared) (n q : Text) (id : ℕ) (P : List ListenerEntry → Type 0)
      → (n ≡ q → P (drop_first (λ l. ℕ_discrete l.id id) (heard s q)))
      → (n ≢ q → P (heard s q))
      → P (heard (run_inverse outcome s (unlisten n id)).1 q)
  unfolding run_inverse
  without_one s n q id P out kept =
      let rest = λ (m : Text). drop_first (λ l. ℕ_discrete l.id id) (heard s m) in
      rw (listeners-insert n q (rest n) s.listeners)
        (elim (Text-discrete n q) as (λ d. P (ite d (rest n) (heard s q))) [
          | yes h ↦ subst (λ m. P (rest m)) (sym h) (out h)
          | no h ↦ kept h
        ])

  run_inverse-Thinner : (s : Shared) (i : Inverse) → Thinner s (run_inverse outcome s i).1
  run_inverse-Thinner s (unlisten n id) = record {
    fewer = λ q P v. without_one s n q id (All P) (λ h. All-drop_first P _ (heard s q) v) (λ h. v);
    ascending = λ q m v.
        without_one s n q id (Ascends m) (λ h. Ascends-drop_first m id (heard s q) v) (λ h. v);
  }
  run_inverse-Thinner s (unprovide pk e) =
      Thinner-same s _ (λ q. unfold run_inverse in rw (listeners-remove_provide s pk e) refl)
  run_inverse-Thinner s (unisolate x k) = Thinner-same s _ (λ q. unfold run_inverse in refl)
  run_inverse-Thinner s (unintercept x k id) = Thinner-same s _ (λ q. unfold run_inverse in refl)
  run_inverse-Thinner s (user n) = Thinner-same s _ (λ q. unfold run_inverse in refl)

  pub run_inverses-Thinner :
      (s : Shared) (is : List Inverse) (first : Option Error)
      → Thinner s (run_inverses outcome s is first).1
  unfolding run_inverses
  run_inverses-Thinner s [] first = Thinner-same s s (λ q. refl)
  run_inverses-Thinner s (i ∷ is) first =
      let (e, s') = run_inverse outcome s i in
      Thinner-trans {t = s'} (run_inverse-Thinner s i)
        (run_inverses-Thinner s' is (or_else first e))

  -- A listener whose closure has run is out.
  run_inverse-withdraws :
      (s : Shared) (i : Inverse) (q : Text)
      → Ascends 0 (heard s q)
      → All (λ l. unlisten q l.id ≢ i) (heard (run_inverse outcome s i).1 q)
  unfolding id_of event_of
  run_inverse-withdraws s (unlisten n id) q a =
      without_one s n q id (All (λ l. unlisten q l.id ≢ unlisten n id))
        (λ h. All-imp _ _ (λ l k e. k (ap id_of e)) _ (drop_first-without 0 id (heard s q) a))
        (λ h. All-every _ (λ l e. h (sym (ap (event_of q) e))) (heard s q))
  run_inverse-withdraws s (unprovide pk e) q a = All-every _ (λ l e. cc) _
  run_inverse-withdraws s (unisolate x k) q a = All-every _ (λ l e. cc) _
  run_inverse-withdraws s (unintercept x k id) q a = All-every _ (λ l e. cc) _
  run_inverse-withdraws s (user n) q a = All-every _ (λ l e. cc) _

  pub run_inverses-withdraws :
      (s : Shared) (is : List Inverse) (first : Option Error) (q : Text)
      → Ascends 0 (heard s q)
      → All (λ l. In (unlisten q l.id) is → ⊥) (heard (run_inverses outcome s is first).1 q)
  unfolding run_inverses
  run_inverses-withdraws s [] first q a = All-every _ (λ l m. m) _
  run_inverses-withdraws s (i ∷ is) first q a =
      let (e, s') = run_inverse outcome s i in
      let first' = or_else first e in
      All-imp _ _ (λ l k m. elim m [ inl h ↦ k.0 h | inr m' ↦ k.1 m' ]) _
        (All-zip _ _ _
          ((run_inverses-Thinner s' is first').fewer q _ (run_inverse-withdraws s i q a))
          (run_inverses-withdraws s' is first' q ((run_inverse-Thinner s i).ascending q 0 a)))

  pub begin-heard : (s : Shared) (c : ℕ) (q : Text) → heard (begin_unwind outcome s c) q ≡ heard s q
  unfolding begin_unwind detach
  begin-heard s c q = ground arith

  pub begin-IsAttended : (s : Shared) (c : ℕ) → IsAttended s → IsAttended (begin_unwind outcome s c)
  begin-IsAttended s c v = record {
    attended = λ q.
        rw (begin-heard s c q) (
          All-imp _ _ (λ l h. begin_live outcome s c l.owner (unlisten q l.id) h) _ (v.attended q));
    ascending = λ q. rw (begin-heard s c q) (v.ascending q);
  }
