-- ===== src/Upload/Tests.antt =====
-- internal/uploader/uploader.go at concrete inputs: a server with two channels.
use discord_free_cloud.Base.{◌≡◌, refl, [], ◌∷◌, length, map, arith, codes}
use discord_free_cloud.Upload.{
  Placement, server_rows, part_rows, part_row, total_chunks, part_size, part_offset, pending_chunks,
  total_work_items,
}
use discord_free_cloud.Upload.Tiling.{Tiles, server_rows-Tiles, total_work_items-pending_chunks}

abbrev two_channels : Placement
two_channels = record {
  job_id = codes "j";
  file_id = codes "f";
  guild_id = codes "g";
  channels = codes "x" ∷ codes "y" ∷ [];
  rot_start = 1;
  part_id = λ i. i ∷ [];
  now = 0;
}

server_rows_sizes : map (λ c. c.chunk_size) (server_rows two_channels 2 5) ≡ 2 ∷ 2 ∷ 1 ∷ []
unfolding server_rows part_rows part_row total_chunks part_size part_offset
server_rows_sizes = refl

server_rows-Tiles_example : Tiles 2 5 0 0 (server_rows two_channels 2 5)
server_rows-Tiles_example = server_rows-Tiles two_channels 2 5 (omega arith) (omega arith)

total_work_items-pending_chunks_example :
    length (pending_chunks 2 5 (two_channels ∷ two_channels ∷ []))
    ≡ total_work_items 2 5 (two_channels ∷ two_channels ∷ [])
total_work_items-pending_chunks_example =
    total_work_items-pending_chunks 2 5 (two_channels ∷ two_channels ∷ [])
