-- ===== src/Tests/Clusters.antt =====
-- Two crawlers, of which the first crawls a page without links and applies its own visit.
use ww_webcrawler.Prelude.{
  ◌≡◌, refl, ◌||◌, String, string_comparable, true, Option, List, [], ◌∷◌, done,
}
use ww_webcrawler.Sets.SyncMap.{elem}
use ww_webcrawler.Sets.Set
use ww_webcrawler.Crawler.Link.{Link, extract_links}
use ww_webcrawler.Crawler.Link.Extract.{groups, link_of}
use ww_webcrawler.Crawler.Message.{Item, visit, as_item, from_item, little_endian}
use ww_webcrawler.Crawler.State.{Urls, new_urls, Crawler}
use ww_webcrawler.Crawler.Valid.{UrlsFit, new_urls-UrlsFit}
use ww_webcrawler.Crawler.Handlers.Log.{item_visits, on_new_value_lem}
use ww_webcrawler.Crawler.Handlers.{MessageError, on_new_value}
use ww_webcrawler.Crawler.Claims.{process_response}
use ww_webcrawler.Crawler.Claims.Sort.{LinksSent}
use ww_webcrawler.Crawler.Response.{reported, process_response_lem}
use ww_webcrawler.Crawler.Cluster.{
  processes, Member, Cluster, no_cluster, starts, acts, commits, applies, ClusterSteps, here, next,
}
use ww_webcrawler.Crawler.Cluster.Kept.{nothing_lost}
use ww_webcrawler.Crawler.Known.{is_known, log_urls}
use ww_webcrawler.Tests.Codec.{codes_json, codes_json-RoundTrips, write}
use ww_webcrawler.Tests.Crawls.{crawler, monday}
use ww_webcrawler.Tests.Delivery.{codes_env}
use ww_webcrawler.Tests.Pages.{front}

abbrev page_done :
    (to : List Link) × (c : Crawler) × (extract_links (λ ls. ls) (groups front) []
      ≡ done (link_of front, to))
    × (process_response codes_env (crawler new_urls) "/a" (λ ls. ls) (groups front) [] ≡ done c)
    × LinksSent codes_env (reported codes_env (crawler new_urls) "/a" (link_of front) to) to c
page_done =
    process_response_lem codes_env (crawler new_urls) "/a" (λ ls. ls) front [] new_urls-UrlsFit

abbrev visit_item : Item
visit_item = record {
  key = little_endian 8 48879;
  value = write (record { message_type = visit; urls = "/a" ∷ [] });
}

abbrev heard :
    (e : Option MessageError) × (u : Urls) × (on_new_value codes_json
        (λ url. monday)
        page_done.1.urls
        visit_item
      ≡ done (e, u))
    × UrlsFit u
    × ((k : String)
        → Set.has u.visited k
          ≡ elem k (item_visits (from_item codes_json visit_item))
            || Set.has page_done.1.urls.visited k)
heard = on_new_value_lem codes_json (λ url. monday) page_done.1.urls visit_item page_done.4.fits

abbrev fresh : Member
fresh = record { crawler = crawler new_urls; applied = [] }

abbrev visited : Member
visited = record { crawler = record page_done.1 { urls = heard.1 }; applied = visit_item ∷ [] }

abbrev two : Cluster
two = record { log = visit_item ∷ []; members = fresh ∷ visited ∷ [] }

two-ClusterSteps : ClusterSteps codes_env no_cluster two
unfolding as_item
two-ClusterSteps =
    next
      (next
        (next
          (next (next here (starts (crawler new_urls) refl refl)) (
            acts [] [] fresh page_done.1 refl
              (processes "/a" (λ ls. ls) front [] page_done.1 page_done.3)))
          (commits [] [] (record fresh { crawler = page_done.1 }) [] _ visit_item refl
            page_done.4.told refl))
        (applies [] [] (record fresh { crawler = page_done.1 }) visit_item [] (λ url. monday)
          heard.0 heard.1 refl refl heard.2))
      (starts (crawler new_urls) refl refl)

nothing_lost_example :
    (is_known heard.1 "/a" ≡ true → elem "/a" (log_urls codes_json (visit_item ∷ [])) ≡ true)
    × (elem "/a" (log_urls codes_json (visit_item ∷ [])) ≡ true
        → (is_known heard.1 "/a" || elem "/a" (log_urls codes_json page_done.1.sent)) ≡ true)
nothing_lost_example =
    nothing_lost codes_env two (fresh ∷ []) [] visited "/a" codes_json-RoundTrips two-ClusterSteps
      refl
