-- ===== src/Shares/Host.antt =====
-- internal/server/share.go: the host that a link names.
use discord_free_cloud.Base.{
  ◌≡◌, refl, inl, inr, false, ◌||◌, if◌then◌else◌, arith, Text, codes, bytes_eq, bytes_eq_iff,
  Bool-cases, [],
}
use discord_free_cloud.Shares.{Origin, default_host, dfc_share_host, url_of, share_base_url}

-- the addresses that a link can start with
pub data IsKnown (variable : Text) (url : Text) : Type 0 where
  configured : url ≡ url_of (codes "https") (dfc_share_host variable) → IsKnown variable url
  standard : (scheme : Text) → url ≡ url_of scheme default_host → IsKnown variable url

dfc_share_host_filled : (variable : Text) → bytes_eq (dfc_share_host variable) [] ≡ false
unfolding dfc_share_host bytes_eq
dfc_share_host_filled variable = ground arith

-- Whatever host and forwarding headers a request carries, the address that its link starts with names
-- the configured host or the standard one: a caller cannot make the server hand out a link to another host.
pub share_base_url-IsKnown :
    (variable : Text) (r : Origin) → IsKnown variable (share_base_url variable r)
unfolding share_base_url bytes_eq
share_base_url-IsKnown variable r =
    let host : Text = if bytes_eq r.forwarded_host [] then r.host else r.forwarded_host in
    elim (Bool-cases (bytes_eq host default_host)) [
      | inl same ↦
          let e : host ≡ default_host = (bytes_eq_iff host default_host).0 same in
          standard
            (if r.tls || bytes_eq r.forwarded_proto (codes "https")
              then codes "https"
              else codes "http")
            (rw e refl)
      | inr other ↦ configured (rw (other, dfc_share_host_filled variable) (ground arith))
    ]
