-- ===== src/History.antt =====
-- hooks/useNavigationHistory.js: the back and forward history of the main window. The refs of the
-- hook are the fields of a record, and a callback returns the new record with its result.
pub mod Zipper
pub mod Keys
pub mod Trips
mod Tests
use klew.Base.{
  ℕ, zero, suc, ◌+◌, ◌-◌, Bool, true, false, List, [], ◌∷◌, ◌++◌, Option, none, some, Str, codes,
  str_eq, is_empty, ◌or◌, join, ◌or_else◌, if◌then◌else◌, ltb, leb, length, get_elem?, take,
}

pub record Entry : Type 0 where
  pub tab : Str
  pub nodes_focus : Str
  pub settings_section : Str

-- What a caller hands over: a field that is absent, `null` or `undefined` is `none`.
pub record Partial : Type 0 where
  pub tab : Option Str
  pub nodes_mode : Option Str
  pub nodes_focus : Option Str
  pub settings_section : Option Str

abbrev pub home_nav : Entry
home_nav = record {
  tab = codes "home";
  nodes_focus = codes "cluster";
  settings_section = codes "general";
}

-- an entry, read where the code takes a partial one
abbrev pub to_partial : Entry → Partial
to_partial e = record {
  tab = some e.tab;
  nodes_mode = none;
  nodes_focus = some e.nodes_focus;
  settings_section = some e.settings_section;
}

abbrev pub bar : Str
bar = codes "|"

unfoldable pub nav_entry_key : Option Entry → Str
unfolding join
nav_entry_key none = []
nav_entry_key (some e) =
    join bar ((e.tab or []) ∷ (e.nodes_focus or []) ∷ (e.settings_section or []) ∷ [])

abbrev pub rename_tab : Str → Str
rename_tab tab = if str_eq tab (codes "commands") then codes "evidence" else tab

unfoldable pub normalize_nav_entry : Partial → Partial → Entry
normalize_nav_entry p current = record {
  tab = rename_tab (p.tab or_else (current.tab or_else home_nav.tab));
  nodes_focus =
      p.nodes_mode
      or_else (p.nodes_focus or_else (current.nodes_focus or_else home_nav.nodes_focus));
  settings_section =
      p.settings_section or_else (current.settings_section or_else home_nav.settings_section);
}

pub record Nav : Type 0 where
  pub stack : List Entry
  pub index : ℕ
  pub skip_push : Bool
  pub revision : ℕ

unfoldable pub start_nav : Partial → Nav
start_nav initial = record {
  stack = normalize_nav_entry initial (to_partial home_nav) ∷ [];
  index = 0;
  skip_push = false;
  revision = 0;
}

abbrev pub current : Nav → Option Entry
current n = get_elem? n.stack n.index

unfoldable pub can_go_back : Nav → Bool
can_go_back n = ltb 0 n.index

unfoldable pub can_go_forward : Nav → Bool
can_go_forward n = ltb (n.index + 1) (length n.stack)

-- the second argument of `normalizeNavEntry`; `undefined` takes its default
abbrev pub current_partial : Option Entry → Partial
current_partial none = to_partial home_nav
current_partial (some e) = to_partial e

abbrev pub pushed : Nav → Partial → Entry
pushed n entry = normalize_nav_entry entry (current_partial (current n))

-- the part of `push` below its first guard
unfoldable pub push_entry : Nav → Entry → Nav
push_entry n normalized =
    if str_eq (nav_entry_key (current n)) (nav_entry_key (some normalized))
    then n
    else (let trimmed = take (n.index + 1) n.stack ++ normalized ∷ [] in
        record {
          stack = trimmed;
          index = length trimmed - 1;
          skip_push = n.skip_push;
          revision = n.revision + 1;
        })

unfoldable pub push : Nav → Partial → Nav
push n entry = if n.skip_push then record n { skip_push = false } else push_entry n (pushed n entry)

-- a step of `go`: `ahead d` is `delta = d`, `behind d` is `delta = -d`
pub data Delta : Type 0 where
  ahead behind : ℕ → Delta

-- `indexRef.current + delta`; `none` where it is negative
abbrev pub moved : ℕ → Delta → Option ℕ
moved i (ahead d) = some (i + d)
moved i (behind d) = if ltb i d then none else some (i - d)

abbrev pub land : Nav → Option ℕ → Nav × Option Entry
land n none = (n, none)
land n (some next) = if leb (length n.stack) next then (n, none) else (
  record n { index = next; skip_push = true; revision = n.revision + 1 },
  get_elem? n.stack next,
)

unfoldable pub go : Nav → Delta → Nav × Option Entry
go n delta = land n (moved n.index delta)

unfoldable pub back : Nav → Nav × Option Entry
unfolding go
back n = go n (behind 1)

unfoldable pub forward : Nav → Nav × Option Entry
unfolding go
forward n = go n (ahead 1)
