-- ===== src/RateLimit/Addresses.antt =====
-- cmd/ratelimit/ratelimit.go: the address that `getClientIP` takes.
use consensus_proxy.Base.{
  String, Bool, true, false, eq_iff, ◌≡◌, ◌⊎◌, arith, Option, none, some, refl, ap, ◌∙◌,
}
use consensus_proxy.Http.Headers.{Header, header_get}
use consensus_proxy.RateLimit.{with_default, before_comma, parse_first_ip, get_client_ip}

module _ (parses : String → Bool) (split_host : String → Option String) where
  -- The valid address that a list names: its first entry, or all of it where that is none.
  abbrev pub Names : String → String → Type 0
  Names ips ip =
      (parses ip ≡ true)
      × ((before_comma ips ≡ some ip)
          ⊎ ((ip ≡ ips)
              × ((before_comma ips ≡ none)
                  ⊎ ((a : String) × (before_comma ips ≡ some a) × (parses a ≡ false)))))

  -- A list that names no valid address.
  abbrev pub NamesNone : String → Type 0
  NamesNone ips =
      (parses ips ≡ false)
      × ((before_comma ips ≡ none)
          ⊎ ((a : String) × (before_comma ips ≡ some a) × (parses a ≡ false)))

  parse_first_ip_lem :
      (ips : String)
      → let ip = parse_first_ip parses split_host ips in Names ips ip ⊎ (NamesNone ips × (ip ≡ ""))
  unfolding parse_first_ip
  parse_first_ip_lem ips = ground arith

  -- The host of the remote address, or all of it where there is none.
  abbrev pub host_of : String → String
  host_of remote_addr = with_default remote_addr (split_host remote_addr)

  before_comma-nil : (s : String) → s ≡ "" → before_comma s ≡ none
  unfolding before_comma
  before_comma-nil s e = rw e refl

  parses-nil : (s : String) → parses "" ≡ false → s ≡ "" → parses s ≡ false
  parses-nil s empty e = ap parses e ∙ empty

  -- Where the empty text is no address: a request is counted under the valid address that
  -- X-Forwarded-For names first, or else under X-Real-IP if that is one, or else under the host of
  -- its remote address.
  pub get_client_ip_lem :
      (header : Header) (remote_addr : String)
      → parses "" ≡ false
      → let ip = get_client_ip parses split_host header remote_addr in
        let xff = header_get "X-Forwarded-For" header in
        let xri = header_get "X-Real-IP" header in
        Names xff ip
        ⊎ (NamesNone xff × (parses xri ≡ true) × (ip ≡ xri))
        ⊎ (NamesNone xff × (parses xri ≡ false) × (ip ≡ host_of remote_addr))
  unfolding get_client_ip
  get_client_ip_lem header remote_addr empty =
      let xff = header_get "X-Forwarded-For" header in
      let xri = header_get "X-Real-IP" header in
      ground (
        arith,
        parse_first_ip_lem xff,
        eq_iff (parse_first_ip parses split_host xff) "",
        eq_iff xff "",
        eq_iff xri "",
        before_comma-nil xff,
        parses-nil xff empty,
        parses-nil xri empty,
        parses-nil (parse_first_ip parses split_host xff) empty,
      )
