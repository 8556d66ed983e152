-- ===== src/Sticker/Tests.antt =====
-- Runs of the service of stickers, and its theorem at an input.
use slps_team.Prelude.{◌≡◌, refl, [], ◌∷◌}
use slps_team.Errors.{Sentinel, sentinel}
use slps_team.Flow.{err}
use slps_team.Sql.{Db}
use slps_team.Sql.Calm.{calm}
use slps_team.Sticker.{Sticker, StickerTables}
use slps_team.Sticker.Store.{get_sticker_row}
use slps_team.Sticker.Service.{get_stickers_by_pack_id, get_sticker_by_id}
use slps_team.Sticker.Packs.{Shows, get_stickers_by_pack_id-Shows}

abbrev cat : Sticker
cat = record { id = 1; pack_id = 1; file_path = "cat.png"; position = 2 }

abbrev dog : Sticker
dog = record { id = 2; pack_id = 1; file_path = "dog.png"; position = 1 }

abbrev start : Db StickerTables
start = record {
  tables = record { packs = []; stickers = cat ∷ dog ∷ [] };
  statements = 0;
  env = calm;
}

missing_sticker : (get_sticker_by_id 7 start).0 ≡ err (sentinel Sentinel.not_found)
unfolding get_sticker_by_id get_sticker_row
missing_sticker = refl

get_stickers_by_pack_id-Shows_example :
    Shows 1 start.tables (get_stickers_by_pack_id 1 start).0
    × (get_stickers_by_pack_id 1 start).1.tables ≡ start.tables
get_stickers_by_pack_id-Shows_example = get_stickers_by_pack_id-Shows 1 start
