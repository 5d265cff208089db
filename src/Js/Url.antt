-- ===== src/Js/Url.antt =====
-- What `new URL` answers for a text it accepts; `href` is what `toString` returns.
use io_t_midterm_availabilit.Base.{String}

pub record Url : Type 0 where
  pub href : String
  pub protocol : String
  pub hostname : String
  pub port : String
