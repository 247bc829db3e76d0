-- ===== src/Manager/Document.antt =====
-- src/manager.rs, `Prepared::edit`: what an edit makes of the text of the configuration file.
use niri_bridge.Prelude.{Result, ok, ◌>>=◌, String, List}
use niri_bridge.Float.{Float}
use niri_bridge.Bridge.Edges.{with_context}
use niri_bridge.Pairing as Pairing
use niri_bridge.Pairing.{Write, sync_selected}

-- What the edits ask of TOML documents: `toml::from_str` of one as a configuration, and the writes
-- of `Pairing.Write`.
pub record Toml (F D : Type 0) : Type 0 where
  pub parse : String → Result D
  pub print : D → String
  pub config_of : D → Result (Pairing.Config F)
  pub write : List (Write F) → D → D

module _ {F : Type 0} ⦃fl : Float F⦄ {K D W : Type 0} (files : Pairing.Files F K W)
    (toml : Toml F D) where
  -- `pairing::sync_selected`, on a document
  abbrev pub synced_doc : D → Result D
  synced_doc doc = with_context (toml.config_of doc) "config_invalid" >>= λ config.
      sync_selected files config >>= λ writes. ok (toml.write writes doc)
