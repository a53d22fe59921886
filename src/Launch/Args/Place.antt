-- ===== src/Launch/Args/Place.antt =====
-- The places of the arguments, from crawler/main.go.
use ww_webcrawler.Prelude.{ℕ}

abbrev pub http : ℕ
http = 0

abbrev pub prefix : ℕ
prefix = 1

abbrev pub nodes : ℕ
nodes = 2

abbrev pub url : ℕ
url = 3

abbrev pub db_endpoint : ℕ
db_endpoint = 4

abbrev pub db_user : ℕ
db_user = 5

abbrev pub db_pass : ℕ
db_pass = 6

abbrev pub raft_link : ℕ
raft_link = 7
