-- ===== src/Node/Turns/Split.antt =====
-- node/: `ProcessHeader` as a part before its wait and one after it.
use august.Base.Dict.{nat_eq}
