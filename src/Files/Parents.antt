-- ===== src/Files/Parents.antt =====
-- internal/server/qol.go: what a rename and a move do to the place of the files.
use discord_free_cloud.Base.{◌≡◌}
use discord_free_cloud.Db.{Store}
use discord_free_cloud.Files.Moves.{MoveAnswer}
use discord_free_cloud.Files.Places.{places_in}

-- an answer behind which every file is in the folder that it was in
record StaysPut (s : Store) (r : MoveAnswer × Store) : Type 0 where
  same : places_in r.1 ≡ places_in s
