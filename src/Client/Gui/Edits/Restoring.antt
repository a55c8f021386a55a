-- ===== src/Client/Gui/Edits/Restoring.antt =====
-- What a restoring of the default does to the configuration: client/src/gui/logic.rs.
use remote_file_system.Prelude.{◌≡◌, refl, sym, ap, ◌∙◌, List, [], ◌∷◌}
use remote_file_system.Paths.{Text, FilePath}
use remote_file_system.Client.Gui.{Gui, settings_of, load_config}
use remote_file_system.Client.Gui.Edits.{
  change_string, change_bool, change_int, Checked, changed, refused, checked,
  on_change_string_property, on_change_bool_property, on_change_int_property, on_restore_default,
}
use remote_file_system.Client.Gui.Edits.Limits.{
  Edit, editing_string, editing_bool, editing_int, restoring, edit, edit_all, accepted,
  checked-config,
}

-- The changes without the restorings of the default.
abbrev pub without_restoring : List Edit → List Edit
without_restoring [] = []
without_restoring (restoring ∷ es) = without_restoring es
without_restoring (editing_string o ∷ es) = editing_string o ∷ without_restoring es
without_restoring (editing_bool o ∷ es) = editing_bool o ∷ without_restoring es
without_restoring (editing_int o ∷ es) = editing_int o ∷ without_restoring es

module _ (spelling : FilePath → Text) where
  checked-default :
      (r : Checked) (g : Gui) → (checked spelling r g).default_config ≡ g.default_config
  checked-default (changed c) g = refl
  checked-default (refused m) g = refl

  edit_config :
      (e : Edit) (g g' : Gui)
      → g.config ≡ g'.config
      → (edit spelling e g).config ≡ (edit spelling e g').config
  unfolding edit on_change_string_property on_change_bool_property on_change_int_property
      on_restore_default
  edit_config (editing_string o) g g' h = ap (change_string o) h
  edit_config (editing_bool o) g g' h = ap (change_bool o) h
  edit_config (editing_int o) g g' h =
      checked-config spelling (change_int o g.config) g
      ∙ ap (λ c. accepted (change_int o c) c) h
      ∙ sym (checked-config spelling (change_int o g'.config) g')
  edit_config restoring g g' h = h

  edit_all_config :
      (es : List Edit) (g g' : Gui)
      → g.config ≡ g'.config
      → (edit_all spelling es g).config ≡ (edit_all spelling (without_restoring es) g').config
  unfolding edit_all edit on_restore_default
  edit_all_config [] g g' h = h
  edit_all_config (restoring ∷ es) g g' h = edit_all_config es (edit spelling restoring g) g' h
  edit_all_config (editing_string o ∷ es) g g' h =
      edit_all_config es (edit spelling (editing_string o) g) (edit spelling (editing_string o) g')
        (edit_config (editing_string o) g g' h)
  edit_all_config (editing_bool o ∷ es) g g' h =
      edit_all_config es (edit spelling (editing_bool o) g) (edit spelling (editing_bool o) g')
        (edit_config (editing_bool o) g g' h)
  edit_all_config (editing_int o ∷ es) g g' h =
      edit_all_config es (edit spelling (editing_int o) g) (edit spelling (editing_int o) g')
        (edit_config (editing_int o) g g' h)

  edit_all-default :
      (es : List Edit) (g : Gui) → (edit_all spelling es g).default_config ≡ g.default_config
  unfolding edit_all edit on_change_string_property on_change_bool_property on_change_int_property
      on_restore_default
  edit_all-default [] g = refl
  edit_all-default (editing_string o ∷ es) g =
      edit_all-default es (edit spelling (editing_string o) g)
  edit_all-default (editing_bool o ∷ es) g = edit_all-default es (edit spelling (editing_bool o) g)
  edit_all-default (editing_int o ∷ es) g =
      edit_all-default es (edit spelling (editing_int o) g)
      ∙ checked-default (change_int o g.config) g
  edit_all-default (restoring ∷ es) g = edit_all-default es (edit spelling restoring g)

  -- Restoring the default does nothing to the configuration that is used: after any changes it is
  -- the one that the same changes without any restoring give, and a restoring at their end shows the
  -- default all the same.
  pub restoring_without_effect :
      (es : List Edit) (g : Gui)
      → let after = edit spelling restoring (edit_all spelling es g) in
        (after.config ≡ (edit_all spelling (without_restoring es) g).config)
        × (after.window.settings ≡ settings_of spelling g.default_config)
  unfolding edit on_restore_default load_config
  restoring_without_effect es g =
      (edit_all_config es g g refl, ap (settings_of spelling) (edit_all-default es g))
