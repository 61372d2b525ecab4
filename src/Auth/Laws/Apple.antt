-- ===== src/Auth/Laws/Apple.antt =====
-- An Apple token without an address, and the account that it is linked to.
use finance_app.Base.Text.{Text}
use finance_app.Auth.Repository.Defs.{Repository}
use finance_app.Auth.Service.Defs.{Service, Laws}
