-- ===== src/Uri/Port.antt =====
-- The text of a URI leaves out only the port that its scheme gives back.
use link_server.Base.{◌≡◌, refl, true, ◌==◌, Bool-cases, inl, inr, arith}
use link_server.Uri.{Uri, is_plain, is_secure, is_default_port, get_port, get_path, dump_uri}

-- Where the text of a URI leaves its port out, the URI without a port has the same text and the same
-- port.
pub dump_uri-port :
    (u : Uri)
    → is_default_port u ≡ true
    → (dump_uri (record u { port = 0 }) ≡ dump_uri u)
      × (get_port (record u { port = 0 }) ≡ get_port u)
unfolding dump_uri is_default_port get_port get_path
dump_uri-port u h = (
  rw h refl,
  elim (Bool-cases (u.port == 0)) [
    | inl z ↦ let e : u.port ≡ 0 = ground (arith, z) in rw (z, e) refl
    | inr z ↦ elim (Bool-cases (is_plain u.scheme)) [
      | inl p ↦ let e : u.port ≡ 80 = ground (arith, h, z, p) in rw (z, p, e) refl
      | inr p ↦ elim (Bool-cases (is_secure u.scheme)) [
        | inl q ↦ let e : u.port ≡ 443 = ground (arith, h, z, p, q) in rw (z, p, q, e) refl
        | inr q ↦ ground (arith, h, z, p, q)
      ]
    ]
  ],
)
