-- ===== src/Tabs.antt =====
-- hooks/useTerminalTabs.js, the tabs of the terminal, grouped by cluster context, and
-- lib/terminalSplit.js, which shows two of them side by side (Tabs/Split). What `sessionStorage`
-- held when the page was loaded is the first value of the cache.
pub mod Split
pub mod Active
mod Tests
use klew.Base.{
  ℕ, suc, ◌+◌, ◌-◌, min, Bool, true, false, not, ◌&&◌, List, [], ◌∷◌, ◌++◌, Option, none, some, map,
  ◌==◌, if◌then◌else◌, Str, codes, str_eq, is_empty, ◌or◌, Dict, lookup, insert, length, get_elem?,
  keep, any,
}
use klew.Connection.{decimal}

pub record Tab : Type 0 where
  pub id : Str
  pub title : Str
  pub shell : Str
  pub session_id : Option Str
  pub ready : Bool
  pub error : Str
  pub context_name : Str
  pub namespace : Str
  pub initial_input : Str
  pub initial_input_sent : Bool
  pub restart_token : Option ℕ

-- the fields of a tab that the cache holds
pub record SavedTab : Type 0 where
  pub id : Str
  pub title : Str
  pub context_name : Str
  pub namespace : Str
  pub initial_input : Str
  pub initial_input_sent : Bool

pub record Group : Type 0 where
  pub tabs : List SavedTab
  pub active_id : Option Str

pub record Overrides : Type 0 where
  pub title : Str
  pub shell : Str
  pub context_name : Str
  pub namespace : Str
  pub initial_input : Str

abbrev pub tab_id : ℕ → Str
tab_id n = codes "term-tab-" ++ decimal n

-- `createTerminalTab`, given `nextTabSeq`
unfoldable pub create_terminal_tab : ℕ → Overrides → Tab
create_terminal_tab n o = record {
  id = tab_id n;
  title = o.title or codes "Shell " ++ decimal n;
  shell = o.shell;
  session_id = none;
  ready = false;
  error = [];
  context_name = o.context_name;
  namespace = o.namespace;
  initial_input = o.initial_input;
  initial_input_sent = false;
  restart_token = none;
}

unfoldable pub terminal_context_key : Str → Str → Str
terminal_context_key kube ctx = kube ++ 0 ∷ ctx

abbrev pub restarted : ℕ → Tab → Tab
restarted token t = record t {
  session_id = none;
  ready = false;
  error = [];
  shell = [];
  restart_token = some token;
}

unfoldable pub revive_terminal_tabs : ℕ → List Tab → List Tab
revive_terminal_tabs token saved = map (restarted token) saved

abbrev pub ids : List Tab → List Str
ids ts = map (λ t. t.id) ts

abbrev pub first_id : List Tab → Option Str
first_id [] = none
first_id (t ∷ ts) = if is_empty t.id then none else some t.id

abbrev pub pick_active_id : Option Str → List Tab → Option Str
pick_active_id none ts = first_id ts
pick_active_id (some saved) ts =
    if not (is_empty saved) && any (λ t. str_eq t.id saved) ts then some saved else first_id ts

abbrev pub save_tab : Tab → SavedTab
save_tab t = record {
  id = t.id;
  title = t.title;
  context_name = t.context_name;
  namespace = t.namespace;
  initial_input = t.initial_input;
  initial_input_sent = t.initial_input_sent;
}

unfoldable pub tabs_for_cache : List Tab → List SavedTab
tabs_for_cache ts = map save_tab ts

-- `String(key).split('\0')[1]`, or the empty string
abbrev pub up_to_nul : Str → Str
up_to_nul [] = []
up_to_nul (c ∷ s) = let rest = up_to_nul s in if c == 0 then [] else c ∷ rest

abbrev pub context_in_key : Str → Str
context_in_key [] = []
context_in_key (c ∷ s) = let rest = context_in_key s in if c == 0 then up_to_nul s else rest

-- the hook's refs and state, with `nextTabSeq` of the module
pub record Tabs : Type 0 where
  pub cache : Dict Group
  pub context_key : Str
  pub tabs : List Tab
  pub active_id : Option Str
  pub seeded : Bool
  pub next_tab_seq : ℕ

unfoldable pub write_cache : Str → List Tab → Option Str → Tabs → Tabs
unfolding tabs_for_cache
write_cache key ts active s = if is_empty (context_in_key key) then s else record s {
  cache = insert key (record { tabs = tabs_for_cache ts; active_id = active }) s.cache;
}

abbrev pub restore_tab : ℕ → Str → SavedTab → Tab
restore_tab token ctx t = record {
  id = t.id;
  title = t.title or codes "Shell";
  shell = [];
  session_id = none;
  ready = false;
  error = [];
  context_name = t.context_name or ctx;
  namespace = t.namespace;
  initial_input = t.initial_input;
  initial_input_sent = t.initial_input_sent;
  restart_token = some token;
}

-- A tab that was saved without an id gets a new one.
abbrev pub restore_tabs : ℕ → Str → ℕ → List SavedTab → List Tab × ℕ
restore_tabs token ctx n [] = ([], n)
restore_tabs token ctx n (t ∷ ts) =
    let next = if is_empty t.id then suc n else n in
    let id = if is_empty t.id then tab_id n else t.id in
    let (rest, m) = restore_tabs token ctx next ts in
    (record (restore_tab token ctx t) { id = id } ∷ rest, m)

pub record Loaded : Type 0 where
  pub tabs : List Tab
  pub active_id : Option Str
  pub had_cache : Bool
  pub next_tab_seq : ℕ

abbrev pub load_saved : ℕ → Str → ℕ → List SavedTab → Option Str → Loaded
load_saved token key n [] active = record {
  tabs = [];
  active_id = none;
  had_cache = false;
  next_tab_seq = n;
}
load_saved token key n (t ∷ ts) active =
    let (restored, m) = restore_tabs token (context_in_key key) n (t ∷ ts) in
    record {
      tabs = restored;
      active_id = pick_active_id active restored;
      had_cache = true;
      next_tab_seq = m;
    }

abbrev pub load_group : ℕ → Str → ℕ → Option Group → Loaded
load_group token key n none = load_saved token key n [] none
load_group token key n (some g) = load_saved token key n g.tabs g.active_id

unfoldable pub load_from_cache : ℕ → Str → Tabs → Loaded
load_from_cache token key s = load_group token key s.next_tab_seq (lookup key s.cache)

-- the effect on `contextKey`
unfoldable pub switch_group : ℕ → Str → Tabs → Tabs
unfolding write_cache load_from_cache
switch_group token key s =
    if str_eq s.context_key key
    then s
    else (let s' = write_cache s.context_key s.tabs s.active_id s in
        let loaded = load_from_cache token key s' in
        record s' {
          context_key = key;
          seeded = loaded.had_cache;
          tabs = loaded.tabs;
          active_id = loaded.active_id;
          next_tab_seq = loaded.next_tab_seq;
        })

-- React runs the updater of `setTabs` at once, unless another update of the tabs is queued; then it
-- runs it with the next render, and `tabId` is still empty when `setActiveId` takes it. `o` has the
-- hook's context and namespace where the caller gives none.
unfoldable pub add_tab : (queued : Bool) → Overrides → Tabs → Tabs
unfolding create_terminal_tab
add_tab queued o s =
    let tab = create_terminal_tab s.next_tab_seq o in
    record s {
      tabs = s.tabs ++ tab ∷ [];
      active_id = some (if queued then [] else tab.id);
      next_tab_seq = suc s.next_tab_seq;
    }

abbrev pub find_index : Str → List Tab → Option ℕ
find_index id [] = none
find_index id (t ∷ ts) = elim (str_eq t.id id) [
  | true ↦ some 0
  | false ↦ elim (find_index id ts) [ none ↦ none | some i ↦ some (suc i) ]
]

abbrev pub remaining : Str → List Tab → List Tab
remaining id = keep (λ t. not (str_eq t.id id))

abbrev pub id_of : Option Tab → Option Str
id_of none = none
id_of (some t) = some t.id

abbrev pub pick_next : ℕ → List Tab → Option Str
pick_next i next = id_of (get_elem? next (min i (length next - 1)))

abbrev pub active_after : Str → ℕ → List Tab → Option Str → Option Str
active_after id i next none = none
active_after id i next (some a) = if str_eq a id then pick_next i next else some a

abbrev pub none_left : List Tab → Bool
none_left [] = true
none_left (t ∷ ts) = false

abbrev pub close_at : Str → Option ℕ → Tabs → Tabs
close_at id none s = s
close_at id (some i) s =
    let next = remaining id s.tabs in
    let s' = record s { tabs = next; active_id = active_after id i next s.active_id } in
    if none_left next then write_cache s.context_key [] none (record s' { seeded = true }) else s'

unfoldable pub close_tab : Str → Tabs → Tabs
unfolding write_cache
close_tab id s = close_at id (find_index id s.tabs) s

unfoldable pub update_tab : Str → (Tab → Tab) → Tabs → Tabs
update_tab id patch s = record s { tabs = map (λ t. if str_eq t.id id then patch t else t) s.tabs }

unfoldable pub select_tab : Str → Tabs → Tabs
select_tab id s = record s { active_id = some id }

unfoldable pub restart_tab : ℕ → Str → Tabs → Tabs
unfolding update_tab
restart_tab token id s = update_tab id (restarted token) s

unfoldable pub restart_all_tabs : ℕ → Tabs → Tabs
restart_all_tabs token s = record s { tabs = map (restarted token) s.tabs }
