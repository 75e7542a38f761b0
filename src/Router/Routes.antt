-- ===== src/Router/Routes.antt =====
-- What the inverse of a registration takes out of a router.
use stc_go.Base.{◌≡◌, refl, ite, Option, none, arith}
use stc_go.Base.Assoc.{lookup-insert, lookup-delete}
use stc_go.Key.{Text, Text-discrete}
use stc_go.Router.{Router, handle, remove, serve}

module _ {H : Type 0} where
  -- A registration serves
  pub serve-handle :
      (rt : Router H) (pattern path : Text) (h : Option H)
      → serve (handle rt pattern h).1 path ≡ ite (Text-discrete pattern path) h (serve rt path)
  unfolding serve handle
  serve-handle rt pattern path h =
      ground (arith, lookup-insert Text-discrete path pattern h rt.routes)

  -- The inverse of a registration leaves its pattern without a handler, whatever was registered
  -- since, and every other path as it was; called again it does nothing.
  pub serve-remove :
      (rt later : Router H) (pattern path : Text) (h : Option H)
      → let (u, rt') = handle rt pattern h in
        let (u', gone) = remove u later in
        (serve gone path ≡ ite (Text-discrete pattern path) none (serve later path))
        × (remove u' later ≡ (u', later))
  unfolding serve handle remove
  serve-remove rt later pattern path h =
      (ground (arith, lookup-delete Text-discrete path pattern later.routes), refl)
