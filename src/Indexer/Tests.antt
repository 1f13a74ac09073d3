-- ===== src/Indexer/Tests.antt =====
-- A restart far behind the tip.
use shinzo_generator_client.Prelude.{◌≡◌, refl, ok}
use shinzo_generator_client.Indexer.{resolve_start_height}
use shinzo_generator_client.Indexer.Resumes.{Resolves, resolve_start_height-Resolves}

skips_ahead : resolve_start_height 0 100 (ok 5) (ok 1000) ≡ ok 900
unfolding resolve_start_height
skips_ahead = refl

resolve_start_height-Resolves_example :
    Resolves 0 100 (ok 5) (ok 1000) (resolve_start_height 0 100 (ok 5) (ok 1000))
resolve_start_height-Resolves_example = resolve_start_height-Resolves 0 100 (ok 5) (ok 1000)
