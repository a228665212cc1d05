-- ===== src/SoledadBackend/Handed.antt =====
-- The methods of `SoledadBackend` that hand a call on to the database.
use leap_soledad.Prelude.{ℕ, Bool, true, List, Text}
use leap_soledad.Prelude.Action.{Action, pure, ◌>>=◌, ◌>>◌}
use leap_soledad.Store.Changes.{Change}
use leap_soledad.SoledadBackend.Database.{Database, Soledad, on_database}

module _ {S : Type 0} (D : Database S) where
  unfoldable pub get_generation_info : Action (Soledad S) (ℕ × Text)
  get_generation_info = on_database D.read_generation_info

  unfoldable pub get_generation : Action (Soledad S) ℕ
  unfolding get_generation_info
  get_generation = do (cur_gen, newest_trans_id) ← get_generation_info; pure cur_gen

  unfoldable pub get_trans_id_for_gen : ℕ → Action (Soledad S) Text
  get_trans_id_for_gen generation = on_database (D.read_trans_id_for_gen generation)

  unfoldable pub whats_changed : ℕ → Action (Soledad S) (ℕ × Text × List Change)
  whats_changed old_generation = on_database (D.read_whats_changed old_generation)

  unfoldable pub delete_database : Action (Soledad S) (Unit {0})
  delete_database = on_database D.delete_database

  unfoldable pub close : Action (Soledad S) Bool
  close = do on_database D.close; pure true
