-- ===== src/Acquisition/Torrent.antt =====
-- What dsh-tool-acquisition/src/bencode.ts reads of a torrent: `parseTorrent` and `isTorrent`. The text of
-- bytes in UTF-8 and the SHA-1 digest in hexadecimal are arguments.
pub mod InfoHash
mod Tests
use deepseek_harness_web3_ag.Prelude.{
  suc, Bool, true, false, Option, none, some, List, [], ◌∷◌, ◌++◌, Text, codes, length, ◌==◌,
  if◌then◌else◌,
}
use deepseek_harness_web3_ag.Prelude.Maps.{get}
use deepseek_harness_web3_ag.Prelude.Decimal.{show}
use deepseek_harness_web3_ag.Acquisition.Bencode.{
  ℤ, pos, negsuc, ◌+ℤ◌, rounded_integer, BencodeValue, integer, bytes, items, dictionary, Items,
  nil, cons, Fields, end, field, get_field, Entries, read_fields, decode_at, max_depth,
}

pub record TorrentFile : Type 0 where
  pub path : Text
  pub size : ℤ

pub record TorrentMeta : Type 0 where
  pub info_hash : Text
  pub name : Text
  pub files : List TorrentFile
  pub priv : Bool
  pub total_size : ℤ

abbrev join_with : Text → Text → Text
join_with [] part = part
join_with (c ∷ before) part = (c ∷ before) ++ (b'/' ∷ part)

-- `parts.join('/')`
abbrev pub join_path : List Text → Text
join_path [] = []
join_path (part ∷ []) = part
join_path (part ∷ next ∷ parts) = part ++ (b'/' ∷ join_path (next ∷ parts))

-- `typeof length === 'number' ? length : 0`
abbrev size_of : Option BencodeValue → ℤ
size_of (some (integer n)) = n
size_of _ = pos 0

-- `a ?? b`
abbrev pub or_else : Option BencodeValue → Option BencodeValue → Option BencodeValue
or_else none b = b
or_else (some v) b = some v

-- `String(value)` of what is no text.
abbrev shown_integer : ℤ → Text
shown_integer (pos n) = show n
shown_integer (negsuc n) = b'-' ∷ show (suc n)

abbrev shown_bytes : Text → Text
shown_bytes [] = []
shown_bytes (b ∷ []) = show b
shown_bytes (b ∷ c ∷ bs) = show b ++ (b',' ∷ shown_bytes (c ∷ bs))

unfoldable mutual
  pub shown : BencodeValue → Text
  shown (integer n) = shown_integer n
  shown (bytes b) = shown_bytes b
  shown (items xs) = shown_items xs
  shown (dictionary m) = codes "[object Map]"

  pub shown_items : Items → Text
  shown_items nil = []
  shown_items (cons v nil) = shown v
  shown_items (cons v (cons w xs)) = shown v ++ (b',' ∷ shown_items (cons w xs))

module _ (utf8_of : Text → Text) where
  -- `utf8`
  abbrev utf8 : Option BencodeValue → Text
  utf8 none = []
  utf8 (some (bytes b)) = utf8_of b
  utf8 (some v) = shown v

  abbrev parts_of : Items → List Text
  parts_of nil = []
  parts_of (cons (bytes b) xs) = utf8_of b ∷ parts_of xs
  parts_of (cons (integer n) xs) = parts_of xs
  parts_of (cons (items ys) xs) = parts_of xs
  parts_of (cons (dictionary m) xs) = parts_of xs

  -- One entry of `files`.
  abbrev entry_file : Text → Fields → Option BencodeValue → List TorrentFile
  entry_file name m (some (items parts)) =
      record {
        path = join_with name (join_path (parts_of parts));
        size = size_of (get_field (codes "length") m);
      }
      ∷ []
  entry_file name m _ = []

  unfoldable pub files_of : Text → Items → List TorrentFile
  files_of name nil = []
  files_of name (cons (dictionary m) xs) =
      entry_file name m (or_else (get_field (codes "path.utf-8") m) (get_field (codes "path") m))
      ++ files_of name xs
  files_of name (cons (integer n) xs) = files_of name xs
  files_of name (cons (bytes b) xs) = files_of name xs
  files_of name (cons (items ys) xs) = files_of name xs

-- `walkV2Tree`: the files of the tree, whose entry without a name tells of the file itself.
unfoldable mutual
  pub walk_tree : List Text → Fields → List TorrentFile
  walk_tree prefix end = []
  walk_tree prefix (field k v m) = walk_value prefix k v ++ walk_tree prefix m

  pub walk_value : List Text → Text → BencodeValue → List TorrentFile
  walk_value prefix [] (dictionary m) =
      record { path = join_path prefix; size = size_of (get_field (codes "length") m) } ∷ []
  walk_value prefix (c ∷ k) (dictionary m) = walk_tree (prefix ++ (c ∷ k) ∷ []) m
  walk_value prefix k (integer n) = []
  walk_value prefix k (bytes b) = []
  walk_value prefix k (items xs) = []

-- The sum of doubles is a double.
abbrev total : List TorrentFile → ℤ
total files = go (pos 0) files
  where
    go : ℤ → List TorrentFile → ℤ
    go n [] = n
    go n (f ∷ fs) = go (rounded_integer (n +ℤ f.size)) fs

abbrev is_one : Option BencodeValue → Bool
is_one (some (integer (pos n))) = n == 1
is_one _ = false

abbrev prefix_of : Text → List Text
prefix_of [] = []
prefix_of (c ∷ name) = (c ∷ name) ∷ []

abbrev tree_files : Text → Option BencodeValue → List TorrentFile
tree_files name (some (dictionary tree)) = walk_tree (prefix_of name) tree
tree_files name _ = []

abbrev single_file : Text → Fields → Option BencodeValue → List TorrentFile
single_file name info (some (integer n)) = record { path = name; size = n } ∷ []
single_file name info _ = tree_files name (get_field (codes "file tree") info)

module _ (utf8_of sha1_hex : Text → Text) where
  abbrev all_files : Text → Fields → Option BencodeValue → List TorrentFile
  all_files name info (some (items multi)) = files_of utf8_of name multi
  all_files name info _ = single_file name info (get_field (codes "length") info)

  abbrev pub hash_if : Text → Option BencodeValue → Text
  hash_if span none = []
  hash_if span (some v) = sha1_hex span

  abbrev pub meta_of : Text → Fields → TorrentMeta
  meta_of span info =
      let name =
        utf8 utf8_of
          (or_else (get_field (codes "name.utf-8") info) (get_field (codes "name") info)) in
      let files = all_files name info (get_field (codes "files") info) in
      record {
        info_hash = hash_if span (get_field (codes "pieces") info);
        name = name;
        files = files;
        priv = is_one (get_field (codes "private") info);
        total_size = total files;
      }

  abbrev pub info_of : Option Text → Option BencodeValue → Option TorrentMeta
  info_of (some span) (some (dictionary info)) = some (meta_of span info)
  info_of _ _ = none

  abbrev pub rooted : Option (Entries × Text) → Option TorrentMeta
  rooted none = none
  rooted (some ((m, spans), rest)) = info_of (get (codes "info") spans) (get_field (codes "info") m)

  -- Data that is no dictionary is no torrent.
  unfoldable pub parse_torrent : Text → Option TorrentMeta
  unfolding decode_at read_fields get_field files_of
  parse_torrent [] = none
  parse_torrent (c ∷ rest) =
      if c == b'd'
      then rooted (read_fields (decode_at max_depth) (suc (length rest)) (end, []) rest)
      else none

  abbrev is_some : Option TorrentMeta → Bool
  is_some none = false
  is_some (some m) = true

  unfoldable pub is_torrent : Text → Bool
  unfolding parse_torrent
  is_torrent data_ = is_some (parse_torrent data_)
