-- ===== src/Vfs/Tests.antt =====
-- Witnesses that the theorems on paths apply.
use fp_sisop20_f.Base.{false, []}
use fp_sisop20_f.Vfs.Names.{namex}
use fp_sisop20_f.Vfs.Runs.{Runs}
use fp_sisop20_f.Vfs.Paths.{Named, namex-Named}
use fp_sisop20_f.Vfs.Sample.{start, start-Owns, nothing, no_driver, a_name}

namex-Named_example :
    Runs (Named start [] false) (λ _. ⊥) (namex no_driver false a_name nothing start)
namex-Named_example = namex-Named no_driver [] false a_name nothing start start-Owns
