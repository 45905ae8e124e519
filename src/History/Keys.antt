-- ===== src/History/Keys.antt =====
-- navEntryKey of useNavigationHistory.js: the joined text stands for the entry as long as no part
-- holds the separator.
use klew.Base.{ℕ, ◌≡◌, refl, sym, ◌∙◌, Free, split_unique, [], ◌∷◌, ◌++◌, some, Str, ◌or◌, join}
use klew.History.{Entry, nav_entry_key}

or_nil : (s : Str) → (s or []) ≡ s
or_nil [] = refl
or_nil (c ∷ s) = refl

abbrev pub separator : ℕ
separator = b'|'

joined_key :
    (e : Entry)
    → nav_entry_key (some e)
      ≡ e.tab ++ (separator ∷ (e.nodes_focus ++ (separator ∷ e.settings_section)))
unfolding nav_entry_key join
joined_key e = rw (or_nil e.tab, or_nil e.nodes_focus, or_nil e.settings_section)

-- Entries whose tab and focus hold no `|` have the same key only if they are the same entry.
pub nav_entry_key-injective :
    (e e' : Entry)
    → Free separator e.tab
    → Free separator e'.tab
    → Free separator e.nodes_focus
    → Free separator e'.nodes_focus
    → nav_entry_key (some e) ≡ nav_entry_key (some e')
    → e ≡ e'
nav_entry_key-injective e e' t t' f f' same =
    let (tabs, rest) =
      split_unique separator _ _ _ _ t t' (sym (joined_key e) ∙ same ∙ joined_key e') in
    let (focuses, sections) = split_unique separator _ _ _ _ f f' rest in
    λ i. record { tab = tabs i; nodes_focus = focuses i; settings_section = sections i }
