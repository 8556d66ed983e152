-- ===== src/Sticker.antt =====
-- Stickers: domain/sticker.go, and the tables sticker_packs and stickers of
-- db/migrations/20251008113339_init_db.up.sql.
pub mod Store
pub mod Service
pub mod Packs
mod Tests
use slps_team.Prelude.{ℕ, String, List}

pub record StickerPack : Type 0 where
  pub id : ℕ
  pub name : String
  pub cover_path : String

pub record Sticker : Type 0 where
  pub id : ℕ
  pub pack_id : ℕ
  pub file_path : String
  pub position : ℕ

-- A row of sticker_packs; a row of stickers is a `Sticker`.
pub record PackRow : Type 0 where
  pub pack : StickerPack
  pub created_at : ℕ

pub record StickerTables : Type 0 where
  pub packs : List PackRow
  pub stickers : List Sticker
