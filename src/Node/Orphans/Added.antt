-- ===== src/Node/Orphans/Added.antt =====
-- node/header_processing.go: what waits for a parent after one more header.
use august.Base.{◌≡◌, refl, [], ◌∷◌, ◌++◌}
use august.Base.Dict.{lookup-insert_self}
use august.Blockchain.Header.{BlockHeader}
use august.Node.Orphans.{Orphans, waiting, add_orphan}

pub waiting-add_orphan :
    (h : BlockHeader) (m : Orphans)
    → waiting h.previous_hash (add_orphan h m) ≡ waiting h.previous_hash m ++ h ∷ []
unfolding add_orphan
waiting-add_orphan h m =
    rw (lookup-insert_self h.previous_hash (waiting h.previous_hash m ++ h ∷ []) m) refl
