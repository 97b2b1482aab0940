-- ===== src/Invite/Trees.antt =====
-- internal/invite/invite.go: trees in place of texts, for runs; and trees as strings.
use Prim.Native.Char.{code}
use Prim.Native.String.{String}
use music_p2p.Prelude.{
  if◌then◌else◌, ℕ, zero, suc, ◌≡◌, refl, ap, ◌∙◌, Bool, true, false, List, [], ◌∷◌, Option, none,
  some, ◌==◌,
}
use music_p2p.Invite.{Payload, Externals}
use music_p2p.Invite.RoundTrip.{IsLawful}

pub data Tree : Type 0 where
  leaf : ℕ → Tree
  node : Tree → Tree → Tree

abbrev from_list : List Tree → Tree
from_list [] = leaf 0
from_list (t ∷ ts) = node t (from_list ts)

abbrev to_list : Tree → List Tree
to_list (leaf n) = []
to_list (node t rest) = t ∷ to_list rest

to_list-from_list : (ts : List Tree) → to_list (from_list ts) ≡ ts
to_list-from_list [] = refl
to_list-from_list (t ∷ ts) = ap (λ rest. t ∷ rest) (to_list-from_list ts)

abbrev number : Tree → Option ℕ
number (leaf n) = some n
number (node t u) = none

abbrev starts : Tree → Bool
starts (leaf n) = false
starts (node t u) = true

abbrev body : Tree → Tree
body (leaf n) = leaf n
body (node t u) = u

abbrev pack : Payload Tree → Tree
pack p = node (leaf p.v) (node p.id (from_list p.addrs))

abbrev unpack : Tree → Option (Payload Tree)
unpack (node (leaf v) (node id addrs)) = some (record { v = v; id = id; addrs = to_list addrs })
unpack _ = none

abbrev pub trees : Externals
trees = record {
  Text = Tree;
  Bytes = Payload Tree;
  PeerId = ℕ;
  Addr = ℕ;
  prefix = leaf 9;
  append = node;
  trim_space = λ t. t;
  has_prefix = λ t p. starts t;
  trim_prefix = λ t p. body t;
  encode_base64 = pack;
  decode_base64 = unpack;
  marshal = λ p. p;
  unmarshal = λ p. some p;
  peer_string = leaf;
  decode_peer = number;
  addr_string = leaf;
  new_multiaddr = number;
  is_loopback = λ a. a == 127;
  is_public_addr = λ a. true;
}

pub trees-IsLawful : IsLawful trees
trees-IsLawful = record {
  trim_space = λ raw. refl;
  has_prefix = λ t. refl;
  trim_prefix = λ raw. refl;
  base64 = λ raw.
      ap (λ addrs. some (record { v = raw.v; id = raw.id; addrs = addrs }))
        (to_list-from_list raw.addrs);
  json = λ p. refl;
  peers = λ id. refl;
  addrs = λ a. refl;
}

-- A tree in postfix, before a rest.
abbrev shown_number : ℕ → String → String
shown_number zero rest = String.◌∷◌ "L" rest
shown_number (suc n) rest = shown_number n (String.◌∷◌ "S" rest)

abbrev shown_before : Tree → String → String
shown_before (leaf n) rest = shown_number n rest
shown_before (node t u) rest = shown_before t (shown_before u (String.◌∷◌ "N" rest))

abbrev pub shown : Tree → String
shown t = shown_before t ""

-- What a letter does to the trees that were read so far, the last one first.
abbrev one_more : List Tree → List Tree
one_more (leaf n ∷ stack) = leaf (suc n) ∷ stack
one_more stack = stack

abbrev joined : List Tree → List Tree
joined (u ∷ t ∷ stack) = node t u ∷ stack
joined stack = stack

abbrev push : ℕ → List Tree → List Tree
push letter stack =
    if letter == b'L'
    then leaf 0 ∷ stack
    else if letter == b'S'
    then one_more stack
    else joined stack

abbrev read_on : String → List Tree → List Tree
read_on String.[] stack = stack
read_on (String.◌∷◌ c rest) stack = read_on rest (push (code c) stack)

abbrev top : List Tree → Tree
top [] = leaf 0
top (t ∷ ts) = t

abbrev pub read : String → Tree
read s = top (read_on s [])

read_on-shown_number :
    (n : ℕ) (rest : String) (stack : List Tree)
    → read_on (shown_number n rest) stack ≡ read_on rest (leaf n ∷ stack)
read_on-shown_number zero rest stack = refl
read_on-shown_number (suc n) rest stack = read_on-shown_number n (String.◌∷◌ "S" rest) stack

read_on-shown_before :
    (t : Tree) (rest : String) (stack : List Tree)
    → read_on (shown_before t rest) stack ≡ read_on rest (t ∷ stack)
read_on-shown_before (leaf n) rest stack = read_on-shown_number n rest stack
read_on-shown_before (node t u) rest stack =
    read_on-shown_before t (shown_before u (String.◌∷◌ "N" rest)) stack
    ∙ read_on-shown_before u (String.◌∷◌ "N" rest) (t ∷ stack)

pub read-shown : (t : Tree) → read (shown t) ≡ t
read-shown t = ap top (read_on-shown_before t "" [])
