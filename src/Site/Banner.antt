-- ===== src/Site/Banner.antt =====
-- What a new banner leads to, and what the route does once the root refuses registrations.
use stc_go.Base.{
  ℕ, ◌≡◌, refl, subst, ap, ◌∙◌, true, Option, none, some, [], ◌∷◌, ◌++◌, arith, if_pos,
}
use stc_go.Key.{Text, Text-discrete, Key, Any, Typ, Reflect, Error, inactive, assignable}
use stc_go.Key
use stc_go.Store.{Inverse, unprovide, ProvKey, ProvideEntry, Shared, is_inactive}
use stc_go.Services.{Result, ok, err, provide, service, resolve, typed}
use stc_go.Services.Entries.{contexts-remove_provide}
use stc_go.Services.Visible.{resolve-provide}
use stc_go.Unwind.{run_inverse}
use stc_go.Router.{handle}
use stc_go.Router.Routes.{serve-handle}
use stc_go.Site.{
  Handler, hello, Site, Response, page, banner_set, internal_error, panic, hello_path, greeting,
  hello_apply, with_router, with_text, banner_provided, withdrawn, replace_banner, set_banner,
  answer, request,
}

module _ (r : Reflect) (outcome : ℕ → Option Error) (router_typ string_typ : Typ)
    (router_key banner_key : Key) where
  -- What the last part of the handler leaves where it succeeds.
  provided-service :
      (s : Site) (t x : Text) (sh : Shared) (o : Result Inverse × Shared)
      → provide r sh 0 banner_key (Key.text t) ≡ o
      → (banner_provided r outcome banner_key s t o).0 ≡ banner_set x
      → r.asserts string_typ (Key.text t) ≡ true
      → service r string_typ (banner_provided r outcome banner_key s t o).1.shared 0 banner_key
        ≡ ok (Key.text t)
  unfolding banner_provided service typed
  provided-service s t x sh (ok i, u) e k a =
      rw (resolve-provide r sh u 0 banner_key (Key.text t) i e, a) refl
  provided-service s t x sh (err d, u) e k a = absurd (cc)

  withdrawn-service :
      (s : Site) (t x : Text) (o : Option Error × Shared)
      → (withdrawn r outcome banner_key s t o).0 ≡ banner_set x
      → r.asserts string_typ (Key.text t) ≡ true
      → service r string_typ (withdrawn r outcome banner_key s t o).1.shared 0 banner_key
        ≡ ok (Key.text t)
  unfolding withdrawn
  withdrawn-service s t x (some e, sh) k a = absurd (cc)
  withdrawn-service s t x (none, sh) k a =
      provided-service (record s { shared = sh }) t x sh _ refl k a

  replaced-service :
      (s : Site) (t x : Text) (o : Option Inverse)
      → (replace_banner r outcome banner_key s t o).0 ≡ banner_set x
      → r.asserts string_typ (Key.text t) ≡ true
      → service r string_typ (replace_banner r outcome banner_key s t o).1.shared 0 banner_key
        ≡ ok (Key.text t)
  unfolding replace_banner
  replaced-service s t x none k a = absurd (cc)
  replaced-service s t x (some i) k a = withdrawn-service s t x _ k a

  set_banner-service :
      (s : Site) (t x : Text)
      → (set_banner r outcome banner_key s t).0 ≡ banner_set x
      → r.asserts string_typ (Key.text t) ≡ true
      → service r string_typ (set_banner r outcome banner_key s t).1.shared 0 banner_key
        ≡ ok (Key.text t)
  unfolding set_banner
  set_banner-service s [] x k a = absurd (cc)
  set_banner-service s (c ∷ t) x k a = replaced-service s (c ∷ t) x s.banner_inv k a

  -- hello
  hello-page :
      (u : Site) (c : ℕ) (v : Any) (t q : Text)
      → service r router_typ u.shared c router_key ≡ ok v
      → service r string_typ u.shared c banner_key ≡ ok (Key.text t)
      → (request r outcome banner_key
          (hello_apply r router_typ string_typ router_key u c banner_key).1
          hello_path
          q).0
        ≡ page (greeting ++ t ++ 10 ∷ [])
  unfolding hello_apply with_router with_text request answer
  hello-page u c v t q e k =
      rw (e, k)
        (ap
          (λ (o : Option Handler).
            (answer r outcome banner_key
              (record u { router = (handle u.router hello_path (some (hello t))).1 }) q o).0)
          (serve-handle u.router hello_path hello_path (some (hello t))
            ∙ if_pos (Text-discrete hello_path hello_path) refl _ _))

  -- Where the route /admin/banner has answered that the banner is a new text, where a value of
  -- type string passes the assertion, and where a context resolves the banner as the root does and
  -- has the router, an Apply of the plug-in hello on that context makes /hello serve a page with
  -- just this text.
  pub set_banner-hello :
      (s u : Site) (t x q : Text) (c : ℕ) (v : Any)
      → set_banner r outcome banner_key s t ≡ (banner_set x, u)
      → r.asserts string_typ (Key.text t) ≡ true
      → resolve u.shared c banner_key ≡ resolve u.shared 0 banner_key
      → service r router_typ u.shared c router_key ≡ ok v
      → (request r outcome banner_key
          (hello_apply r router_typ string_typ router_key u c banner_key).1
          hello_path
          q).0
        ≡ page (greeting ++ t ++ 10 ∷ [])
  unfolding service
  set_banner-hello s u t x q c v k a same e =
      let set : service r string_typ u.shared 0 banner_key ≡ ok (Key.text t) =
        subst (λ (w : Site). service r string_typ w.shared 0 banner_key ≡ ok (Key.text t))
          (ap (λ (p : Response × Site). p.1) k)
          (set_banner-service s t x (ap (λ (p : Response × Site). p.0) k) a) in
      hello-page u c v t q e (ap (typed r string_typ banner_key) same ∙ set)

  -- While the root refuses registrations, where bannerInv is the inverse of a provision, and texts
  -- are assignable to the banner key, a request to /admin/banner with a text is answered with the
  -- internal error of an inactive context, and the next such request panics.
  pub set_banner-panic :
      (s : Site) (c d : ℕ) (t t' : Text) (pk : ProvKey) (e : ProvideEntry)
      → is_inactive s.shared 0 ≡ true
      → s.banner_inv ≡ some (unprovide pk e)
      → assignable r banner_key (Key.text (c ∷ t)) ≡ true
      → let (a, u) = set_banner r outcome banner_key s (c ∷ t) in
        (a ≡ internal_error inactive) × ((set_banner r outcome banner_key u (d ∷ t')).0 ≡ panic)
  unfolding set_banner replace_banner withdrawn banner_provided run_inverse provide is_inactive
  set_banner-panic s c d t t' pk e h b a = ground (arith, contexts-remove_provide s.shared pk e)
