-- ===== src/Error.antt =====
-- The error type of src/error.rs. The errors that it wraps are those of other crates and of `std::io`, and so
-- parameters.
module _ (Snow SecretStream StdIo : Type 0) where
  pub data Error : Type 0 where
    snow : Snow → Error
    secret_stream : SecretStream → Error
    from_std_io : StdIo → Error

module _ {Snow SecretStream StdIo : Type 0} where
  -- `From<crypto_secretstream::aead::Error> for Error`
  abbrev pub from_secret_stream : SecretStream → Error Snow SecretStream StdIo
  from_secret_stream value = secret_stream value

  -- `From<Error> for std::io::Error`, with `std::io::Error::other`.
  abbrev pub into_std_io :
      (Error Snow SecretStream StdIo → StdIo) → Error Snow SecretStream StdIo → StdIo
  into_std_io other value = other value
