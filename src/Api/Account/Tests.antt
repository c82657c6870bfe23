-- ===== src/Api/Account/Tests.antt =====
-- A rename in memory.
use go_video.Prelude.{◌≢◌, refl, ok}
use go_video.Prelude.Text.{lit}
use go_video.Simulation.Services.{memory_platform}
use go_video.Simulation.Samples.{two_accounts}
use go_video.Api.Account.{rename_with_token}
use go_video.Api.Account.Rename.{rename_same_name}

rename_same_name_example :
    (rename_with_token memory_platform 2 (lit "u") (lit "new") two_accounts).0 ≢ ok tt
rename_same_name_example =
    rename_same_name memory_platform 2 (lit "u") (lit "new") two_accounts
      ((λ e. refl), ((λ e. refl), tt))
