-- ===== src/Store/Maps.antt =====
-- Reads of the shared maps after a write: what `sh.provides[pk]` is after an assignment or a delete.
use stc_go.Base.{◌≡◌, ite, List, [], arith}
use stc_go.Base.Assoc.{Assoc, insert, delete, lookup-insert, lookup-delete}
use stc_go.Key.{Text, Text-discrete}
use stc_go.Store.{ProvKey, ProvKey-discrete, ProvideEntry, entries, ListenerEntry, listeners_of}

pub entries-insert :
    (pk qk : ProvKey) (es : List ProvideEntry) (m : Assoc ProvKey (List ProvideEntry))
    → entries (insert ProvKey-discrete pk es m) qk ≡ ite (ProvKey-discrete pk qk) es (entries m qk)
unfolding entries
entries-insert pk qk es m = ground (arith, lookup-insert ProvKey-discrete qk pk es m)

pub entries-delete :
    (pk qk : ProvKey) (m : Assoc ProvKey (List ProvideEntry))
    → entries (delete ProvKey-discrete pk m) qk ≡ ite (ProvKey-discrete pk qk) [] (entries m qk)
unfolding entries
entries-delete pk qk m = ground (arith, lookup-delete ProvKey-discrete qk pk m)

pub listeners-insert :
    (n q : Text) (ls : List ListenerEntry) (m : Assoc Text (List ListenerEntry))
    → listeners_of (insert Text-discrete n ls m) q ≡ ite (Text-discrete n q) ls (listeners_of m q)
unfolding listeners_of
listeners-insert n q ls m = ground (arith, lookup-insert Text-discrete q n ls m)
