-- ===== src/Node/Flags.antt =====
-- cmd/node/main.go: `splitCSV` and the lists that the flags give. `strings.TrimSpace` is a parameter.
use Prim.Native.Char.{code}
use Prim.Native.String.{String, ◌++◌}
use mathlib.Core.List as Lists
use music_p2p.Prelude.{◌≡◌, false, List, [], ◌∷◌, map, ◌==◌, if◌then◌else◌}
use music_p2p.Metadata.{is_empty}
use music_p2p.Queue.{Item, Queue, enqueue}

-- The loop of `splitCSV`; `token` is `s[start:i]`.
unfoldable pub split_from : String → String → List String
split_from token String.[] = token ∷ []
split_from token (String.◌∷◌ c s) =
    let next = split_from "" s in
    let longer = split_from (token ++ String.◌∷◌ c "") s in
    if code c == b',' then token ∷ next else longer

unfoldable pub split_csv : (String → String) → String → List String
unfolding split_from
split_csv trim s = map trim (split_from "" s)

-- `if *bootstrapAddrs != ""` and `if *connectAddr != ""`
unfoldable pub all_bootstrap : (String → String) → String → String → List String
all_bootstrap trim bootstrap_addrs connect_addr =
    let listed = if is_empty bootstrap_addrs then [] else split_csv trim bootstrap_addrs in
    if is_empty connect_addr then listed else Lists.◌++◌ listed (connect_addr ∷ [])

abbrev pub cid_item : String → Item
cid_item cid = record { cid = cid; title = ""; artist = "" }

-- The loop over the CIDs of `--queue`.
unfoldable pub enqueue_cids : List String → Queue → Queue
enqueue_cids [] q = q
enqueue_cids (cid ∷ cids) q =
    if is_empty cid then enqueue_cids cids q else enqueue_cids cids (enqueue (cid_item cid) q)

-- `--play` first, then `--queue`.
unfoldable pub set_up_queue : (String → String) → String → String → Queue → Queue
set_up_queue trim play_cid queue_cids q =
    let first = if is_empty play_cid then q else enqueue (cid_item play_cid) q in
    if is_empty queue_cids then first else enqueue_cids (split_csv trim queue_cids) first

-- Texts joined by commas.
abbrev pub join_csv : String → List String → String
join_csv s [] = s
join_csv s (t ∷ ts) = s ++ ("," ++ join_csv t ts)

abbrev pub HasNoComma : String → Type 0
HasNoComma String.[] = Unit {0}
HasNoComma (String.◌∷◌ c s) = ((code c == b',') ≡ false) × HasNoComma s
