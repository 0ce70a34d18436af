-- ===== src/AccessLog/Formatter.antt =====
-- internal/logging/accesslog/formatter.go: the common and combined formats of a request's line. The
-- request and response are the values that the formatters read of them. `net.SplitHostPort`,
-- `strconv.FormatInt`, the text of the present time and the query that the configuration lets
-- through are arguments.
pub mod RoundTrip
use godoxy.Prelude.{ℕ, Bool, true, false, Option, none, some, List, [], ◌∷◌, ◌++◌}
use godoxy.Prelude.Bytes.{Bytes, codes}
use godoxy.Prelude.Int.{ℤ}

pub record Request : Type 0 where
  pub host : Bytes
  pub remote_addr : Bytes
  pub method : Bytes
  pub escaped_path : Bytes
  pub proto : Bytes
  pub referer : Bytes
  pub user_agent : Bytes

pub record Response : Type 0 where
  pub status_code : ℤ
  pub content_length : ℤ

-- The keys of a query with their values, in the order of the iteration.
abbrev pub Query : Type 0
Query = List (Bytes × List Bytes)

-- The values of one key; all but the first of them have an ampersand before them.
unfoldable pub append_values : Bytes → Bool → List Bytes → Bytes
append_values k first [] = []
append_values k true (v ∷ vs) = k ++ (b'=' ∷ (v ++ append_values k false vs))
append_values k false (v ∷ vs) = b'&' ∷ (k ++ (b'=' ∷ (v ++ append_values k false vs)))

unfoldable pub append_query : Bool → Query → Bytes
unfolding append_values
append_query first [] = []
append_query true ((k, vs) ∷ q) = b'?' ∷ (append_values k true vs ++ append_query false q)
append_query false ((k, vs) ∷ q) = b'&' ∷ (append_values k true vs ++ append_query false q)

unfoldable pub append_request_uri : Request → Query → Bytes
unfolding append_query
append_request_uri req query = req.escaped_path ++ append_query true query

module _ (split_host_port : Bytes → Option Bytes) where
  unfoldable pub client_ip : Request → Bytes
  client_ip req = elim (split_host_port req.remote_addr) [ some ip ↦ ip | none ↦ req.remote_addr ]

  module _ (format_int : ℤ → Bytes) (now : Bytes) (query : Query) (req : Request)
      (res : Response) where
    unfoldable pub common_request_log : Bytes
    unfolding client_ip append_request_uri
    common_request_log =
        req.host
        ++ (b' '
            ∷ (client_ip req
                ++ (codes " - - ["
                    ++ (now
                        ++ (codes "] \""
                            ++ (req.method
                                ++ (b' '
                                    ∷ (append_request_uri req query
                                        ++ (b' '
                                            ∷ (req.proto
                                                ++ (b'"'
                                                    ∷ (b' '
                                                        ∷ (format_int res.status_code
                                                            ++ (b' '
                                                            ∷ format_int
                                                            res.content_length))))))))))))))

    unfoldable pub combined_request_log : Bytes
    unfolding common_request_log
    combined_request_log =
        common_request_log
        ++ (codes " \"" ++ (req.referer ++ (codes "\" \"" ++ (req.user_agent ++ (b'"' ∷ [])))))
