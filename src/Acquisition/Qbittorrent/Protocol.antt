-- ===== src/Acquisition/Qbittorrent/Protocol.antt =====
-- What the client of dsh-tool-acquisition/src/qbittorrent.ts and its server send each other.
use deepseek_harness_web3_ag.Prelude.{
  ℕ, Bool, Option, none, some, List, [], ◌∷◌, ◌++◌, Text, codes, starts_with, drop, if◌then◌else◌,
}
use deepseek_harness_web3_ag.Acquisition.Texts.{to_lower, trim, split}
use deepseek_harness_web3_ag.Acquisition.Client.{Added, or_empty}

pub record QbittorrentOptions : Type 0 where
  pub username : Text
  pub password : Text
  pub category : Text
  pub save_path : Text
  pub path_mappings : List Text

-- What `/torrents/add` is sent. `paused` and `stopped` are false in all of them.
pub record AddForm : Type 0 where
  pub tags : Text
  pub category : Option Text
  pub save_path : Option Text
  pub added : Added

pub data InfoQuery : Type 0 where
  hashes tag : Text → InfoQuery

pub data Endpoint : Type 0 where
  torrents_add : AddForm → Endpoint
  torrents_info : InfoQuery → Endpoint
  app_version : Endpoint

-- A login names the user and the password, and other requests carry the cookie.
pub data Request : Type 0 where
  auth_login : Text → Text → Request
  authorized : Option Text → Endpoint → Request

-- The fields of an entry, as `String` and `Number` read them; progress is in millionths.
pub record Item : Type 0 where
  pub state : Text
  pub progress : ℕ
  pub content_path : Option Text
  pub save_path : Text
  pub name : Text

-- A parsed body: the entries of an array, `none` where one is no object.
pub data Listing : Type 0 where
  no_array : Listing
  array : List (Option Item) → Listing

-- `body` is what `text()` gives and `json` what `json()` gives, `none` where they throw.
pub record Response : Type 0 where
  pub status : ℕ
  pub set_cookies : List Text
  pub set_cookie : Option Text
  pub body : Option Text
  pub json : Option Listing

-- A request that failed has the system's codes of its chain of causes.
pub data Fetched : Type 0 where
  responded : Response → Fetched
  unanswered : List (Option Text) → Fetched

pub record Server : Type 1 where
  pub W : Type 0
  pub fetch : Request → W → Fetched × W

-- /^SID=([^;]+)/
abbrev first_part : List Text → Option Text
first_part [] = none
first_part ([] ∷ parts) = none
first_part ((c ∷ sid) ∷ parts) = some (codes "SID=" ++ (c ∷ sid))

abbrev pub sid_of : Text → Option Text
sid_of cookie =
    if starts_with (codes "SID=") cookie then first_part (split b';' (drop 4 cookie)) else none

abbrev or_cookie : Option Text → Option Text → Option Text
or_cookie none cookie = cookie
or_cookie (some sid) cookie = some sid

unfoldable pub last_sid : List Text → Option Text → Option Text
unfolding split starts_with
last_sid [] cookie = cookie
last_sid (text ∷ texts) cookie = last_sid texts (or_cookie (sid_of text) cookie)

abbrev single : Option Text → List Text
single none = []
single (some cookie) = cookie ∷ []

abbrev pub cookies_of : Response → List Text
cookies_of r = or_single r.set_cookies
  where
    or_single : List Text → List Text
    or_single [] = single r.set_cookie
    or_single (cookie ∷ cookies) = cookie ∷ cookies

abbrev pub body_of : Response → Text
body_of r = trim (or_empty r.body)

-- Whether the answer to `/torrents/add` starts with `fails`.
abbrev pub says_fails : Response → Bool
says_fails r = starts_with (codes "fails") (to_lower (body_of r))
