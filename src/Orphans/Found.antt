-- ===== src/Orphans/Found.antt =====
-- internal/ibm/orphans.go, FindOrphans: the way of a listed VPC resource into what a cleanup finds.
use mathlib.Core.List.{Memᴰ}
use roksbnkctl.Prelude.{List}
