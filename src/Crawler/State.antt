-- ===== src/Crawler/State.antt =====
-- The state of one crawler: its URLs, and what it has handed to the shared log and to the database.
use ww_webcrawler.Prelude.{
  string_comparable, ℕ, Bool, true, false, ◌||◌, Option, none, some, String, List,
}
use ww_webcrawler.Queue.{UniqueQueue, new_unique_queue}
use ww_webcrawler.Sets.Set.{Set, new_set}
use ww_webcrawler.Sets.TimedSet.{TimedSet, new_timed_set}
use ww_webcrawler.Crawler.Message.{Item, Json}
use ww_webcrawler.Crawler.Link.{Link}

-- main.go: the maximum size of the local queue, and a claim's timeout in seconds.
abbrev pub queue_cap : ℕ
queue_cap = 40

abbrev pub claim_timeout : ℕ
claim_timeout = 300

pub record Urls : Type 0 where
  -- the URLs to crawl next
  pub local_queue : UniqueQueue String
  -- the pool of unassigned URLs, kept by every crawler
  pub global_pool : Set String
  -- the URLs that some crawler has claimed and not yet visited
  pub claimed : TimedSet String
  pub visited : Set String

unfoldable pub new_urls : Urls
unfolding new_unique_queue new_set new_timed_set
new_urls = record {
  local_queue = new_unique_queue queue_cap;
  global_pool = new_set;
  claimed = new_timed_set;
  visited = new_set;
}

pub record Crawler : Type 0 where
  pub urls : Urls
  pub open urls use *
  pub raft_id : ℕ
  -- the items handed to the Raft node, in order
  pub sent : List Item
  -- whether there is a `DBWrite`, and the calls of it
  pub writes_db : Bool
  pub written : List (Link × List Link)

-- What a crawler calls and does not implement: `json`, and the Raft node's `PutItem`, which answers
-- an item, after those put before it, by an error's text or none. `may_linger` says whether an item
-- can come into the log although its `PutItem` returned an error.
pub record Env : Type 0 where
  pub json : Json
  pub put_item : List Item → Item → Option String
  pub may_linger : Bool

abbrev pub is_none : {A : Type 0} → Option A → Bool
is_none none = true
is_none (some a) = false

-- Whether the log can get an item that has been put after `earlier`.
abbrev pub is_put : Env → List Item → Item → Bool
is_put env earlier item = is_none (env.put_item earlier item) || env.may_linger
