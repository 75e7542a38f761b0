-- ===== src/Steps/Keeping.antt =====
-- Steps that provide nothing keep a recoverable application recoverable.
use stc_go.Base.{ℕ, ◌≤◌, ◌<◌, ◌≡◌, false, List, [], ◌∷◌, arith, All, In}
use stc_go.Store.{ProvKey, ProvideEntry, unprovide, Shared, entries}
use stc_go.Services.WellFormed.{IsWellFormed, OwnedBy}
use stc_go.Unwind.Spared.{IsRecoverable, unw}
use stc_go.Unwind.Spread.{IsTree}
use stc_go.Unwind.Provision.{IsDated}
use stc_go.Steps.Heard.{IsHeard}
use stc_go.Trace.Numbers.{IsLog}
use stc_go.Steps.Scoped.{Scoped, IsHonest}

-- What a recoverable application keeps up: no key is provided twice, the closures account for the
-- entries, and numbers of entries and scopes were given out.
pub record IsTidy (s : Shared) : Type 0 where
  pub formed : IsWellFormed s
  pub whole : IsRecoverable s
  pub dated : IsDated s
  pub owners : (pk : ProvKey) → All (λ e. e.owner < s.next_context) (entries s.provides pk)
  pub honest : All IsHonest s.orch.inbox
  pub tree : IsTree s
  pub heard : IsHeard s
  pub log : IsLog s.seq s.trace

module _ (s t : Shared) (w : Scoped s t) where
  owned :
      (o : ℕ) (es : List ProvideEntry)
      → All (λ e. e.owner < s.next_context) es
      → All (OwnedBy s.contexts o) es
      → All (OwnedBy t.contexts o) es
  owned o [] h v = tt
  owned o (x ∷ xs) h v = (rw (w.owner x.owner h.0) v.0, owned o xs h.1 v.1)

  covered_on :
      (pk : ProvKey) (es : List ProvideEntry)
      → All (λ e. e.owner < s.next_context) es
      → All (λ e. unw s e.owner ≡ false → In (unprovide pk e) (s.contexts e.owner).inverses) es
      → All (λ e. unw t e.owner ≡ false → In (unprovide pk e) (t.contexts e.owner).inverses) es
  covered_on pk [] h v = tt
  covered_on pk (x ∷ xs) h v = (
    λ k. w.kept x.owner (unprovide pk x) h.0 k (v.0 (w.live x.owner h.0 k)),
    covered_on pk xs h.1 v.1,
  )

  sooner : (es : List ProvideEntry) → All (λ e. e.seq ≤ s.seq) es → All (λ e. e.seq ≤ t.seq) es
  sooner [] h = tt
  sooner (x ∷ xs) h = (omega (arith, h.0, w.seq), sooner xs h.1)

  earlier :
      (es : List ProvideEntry)
      → All (λ e. e.owner < s.next_context) es
      → All (λ e. e.owner < t.next_context) es
  earlier [] h = tt
  earlier (x ∷ xs) h = (omega (arith, h.0, w.next), earlier xs h.1)

  pub Scoped-IsTidy : IsTidy s → IsTidy t
  Scoped-IsTidy v = record {
    formed = record {
      exclusive = λ pk.
          let (o, all) = v.formed.exclusive pk in
          (o, w.fewer pk _ (owned o (entries s.provides pk) (v.owners pk) all));
    };
    whole = record {
      covered = λ pk.
          w.fewer pk _ (covered_on pk (entries s.provides pk) (v.owners pk) (v.whole.covered pk));
      own = λ o. w.own o (v.whole.own o);
      rising = λ pk. w.rising pk 0 (v.whole.rising pk);
    };
    dated = record {
      dated = λ pk. w.fewer pk _ (sooner (entries s.provides pk) (v.dated.dated pk));
    };
    owners = λ pk. w.fewer pk _ (earlier (entries s.provides pk) (v.owners pk));
    honest = w.sent v.honest;
    tree = w.tree v.tree;
    heard = w.heard v.heard;
    log = w.log v.log;
  }
