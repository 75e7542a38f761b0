-- ===== src/Steps/Heard.antt =====
-- Entries and listeners stand only while their scopes do.
use stc_go.Base.{
  ℕ, ◌≤◌, ◌<◌, ◌≡◌, ◌∙◌, Bool, Bool-cases, true, false, inl, inr, List, [], ◌∷◌, All, All-imp,
  All-zip, In, arith,
}
use stc_go.Key.{Text}
use stc_go.Store.{ProvKey, ProvideEntry, Inverse, unlisten, Shared, ListenerEntry, entries}
use stc_go.Unwind.Spared.{unw, survivors, spared, IsRecoverable}
use stc_go.Unwind.Listeners.{heard, Ascends}
use stc_go.Unwind.Hush.{Hushed, IsReady}

-- The scope was made, and was not unwound.
abbrev pub Stands : Shared → ℕ → Type 0
Stands s o = (o < s.next_context) × (unw s o ≡ false)

-- The listener's scope stands, with the closure that withdraws the listener.
abbrev pub Listens : Shared → Text → ListenerEntry → Type 0
Listens s q l =
    Stands s l.owner × In (unlisten q l.id) (s.contexts l.owner).inverses × (l.id ≤ s.seq)

pub record IsHeard (s : Shared) : Type 0 where
  pub standing : (pk : ProvKey) → All (λ e. Stands s e.owner) (entries s.provides pk)
  pub listening : (q : Text) → All (Listens s q) (heard s q)
  pub ascending : (q : Text) → Ascends 0 (heard s q)

-- Entries only leave, listeners stay, and so do scopes and their closures.
pub IsHeard-same :
    (s t : Shared)
    → s.next_context ≤ t.next_context
    → s.seq ≤ t.seq
    → ((pk : ProvKey) (Q : ProvideEntry → Type 0)
        → All Q (entries s.provides pk)
        → All Q (entries t.provides pk))
    → t.listeners ≡ s.listeners
    → ((o : ℕ) → o < s.next_context → unw t o ≡ unw s o)
    → ((o : ℕ) (i : Inverse)
        → o < s.next_context
        → unw t o ≡ false
        → In i (s.contexts o).inverses
        → In i (t.contexts o).inverses)
    → IsHeard s
    → IsHeard t
IsHeard-same s t n q fewer l marks kept v = record {
  standing = λ pk. fewer pk _ (All-imp _ _ (λ e h. stands e.owner h) _ (v.standing pk));
  listening = λ p. rw l (All-imp _ _ (listens p) _ (v.listening p));
  ascending = λ p. rw l (v.ascending p);
}
  where
    stands : (o : ℕ) → Stands s o → Stands t o
    stands o h = (omega (arith, n, h.0), marks o h.0 ∙ h.1)

    listens : (p : Text) (x : ListenerEntry) → Listens s p x → Listens t p x
    listens p x h =
        let st = stands x.owner h.0 in
        (st, kept x.owner (unlisten p x.id) h.0.0 st.1 h.1, omega (arith, h.2, q))

-- The entries that unwinding has left.
All-spared :
    (P : ProvideEntry → Type 0) (keep : ℕ → Bool) (es : List ProvideEntry)
    → All P es
    → All (λ e. P e × (keep e.owner ≡ true)) (survivors keep es)
All-spared P keep [] h = tt
All-spared P keep (x ∷ xs) h = elim (Bool-cases (keep x.owner)) [
  | inl k ↦ rw k ((h.0, k), All-spared P keep xs h.1)
  | inr k ↦ rw k (All-spared P keep xs h.1)
]

pub Hushed-IsHeard :
    (s t : Shared)
    → s.next_context ≤ t.next_context
    → s.seq ≤ t.seq
    → Hushed s t
    → IsHeard s
    → IsHeard t
Hushed-IsHeard s t n q w v = record {
  standing = λ pk. rw (w.unwound.exact pk) (
      All-imp _ _ (λ e h. (omega (arith, n, h.0.0), ground (arith, h))) _
        (All-spared _ (spared s t) (entries s.provides pk) (v.standing pk)));
  listening = λ p.
      All-imp _ _ (λ l h. listens p l h.0 h.1) _
        (All-zip _ _ _ (w.thinner.fewer p _ (v.listening p)) (w.silenced p));
  ascending = λ p. w.thinner.ascending p 0 (v.ascending p);
}
  where
    listens :
        (p : Text) (l : ListenerEntry)
        → Listens s p l
        → (unw t l.owner ≡ true → unw s l.owner ≡ true)
        → Listens t p l
    listens p l h k =
        let live : unw t l.owner ≡ false = ground (arith, h.0.1) in
        (
          (omega (arith, n, h.0.0), live),
          rw (w.unwound.kept l.owner live) h.1,
          omega (arith, h.2, q),
        )

pub IsHeard-IsReady : (s : Shared) → IsRecoverable s → IsHeard s → IsReady s
IsHeard-IsReady s r v = record {
  whole = r;
  tended = record {
    attended = λ q. All-imp _ _ (λ l h live. h.1) _ (v.listening q);
    ascending = v.ascending;
  };
}
