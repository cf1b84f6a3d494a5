-- ===== src/Doh/Listener.antt =====
-- `DohServer::new`, `create_tls_acceptor` and the accept loop of `DohServer::run`, src/doh/mod.rs.
-- Files, `rustls_pemfile` and the handshake of `tokio_rustls` are parameters.
use rust_dns_server.Base.{Bool, true, Option, none, some, List, [], ◌∷◌, Bytes}
use rust_dns_server.Text.{Text}

pub record DohServer : Type 0 where
  pub listen_addr : Text
  pub tls_cert_path : Option Text
  pub tls_key_path : Option Text

-- The resolver is the parameter of the handlers.
unfoldable pub new : Text → Option Text → Option Text → DohServer
new listen_addr tls_cert_path tls_key_path = record {
  listen_addr = listen_addr;
  tls_cert_path = tls_cert_path;
  tls_key_path = tls_key_path;
}

-- What `create_tls_acceptor` calls; `none` is an error.
pub record TlsLib : Type 1 where
  pub Certificate : Type 0
  pub Key : Type 0
  pub Acceptor : Type 0
  -- `File::open`, and what the readers find behind it
  pub open_file : Text → Option Bytes
  -- `rustls_pemfile::certs`: a certificate or an error at each place
  pub certs : Bytes → List (Option Certificate)
  -- `rustls_pemfile::private_key`: an error, or a key if there is one
  pub private_key : Bytes → Option (Option Key)
  -- `ServerConfig` with a certificate chain and its key
  pub with_single_cert : List Certificate → Key → Option Acceptor

-- `filter_map(|r| r.ok())`
unfoldable pub oks : {A : Type 0} → List (Option A) → List A
oks [] = []
oks (none ∷ rs) = oks rs
oks (some a ∷ rs) = a ∷ oks rs

-- `?` on a `Result<Option<_>>`, and `ok_or("No private key found")?`.
unfoldable pub found : {A : Type 0} → Option (Option A) → Option A
found none = none
found (some key) = key

module _ (tls : TlsLib) where
  unfoldable pub with_files : Option Bytes → Option Bytes → Option tls.Acceptor
  with_files none key_file = none
  with_files (some cert_file) none = none
  with_files (some cert_file) (some key_file) = elim (found (tls.private_key key_file)) [
    | none ↦ none
    | some key ↦ tls.with_single_cert (oks (tls.certs cert_file)) key
  ]

  unfoldable pub create_tls_acceptor : (cert_path key_path : Text) → Option tls.Acceptor
  create_tls_acceptor cert_path key_path =
      with_files (tls.open_file cert_path) (tls.open_file key_path)

  -- The `if let` on the two paths: without an acceptor the server speaks plain HTTP.
  unfoldable pub acceptor_of : Option Text → Option Text → Option tls.Acceptor
  acceptor_of (some cert_path) (some key_path) = create_tls_acceptor cert_path key_path
  acceptor_of _ _ = none

  unfoldable pub tls_acceptor : DohServer → Option tls.Acceptor
  tls_acceptor server = acceptor_of server.tls_cert_path server.tls_key_path

-- What the task of an accepted connection does: `handshake` is whether `acceptor.accept` succeeds.
-- `false` is a connection that is given up.
unfoldable pub serves : {A : Type 0} → Option A → (handshake : Bool) → Bool
serves none handshake = true
serves (some acceptor) handshake = handshake
