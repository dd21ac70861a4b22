-- ===== src/App.antt =====
-- server/_app.py, server/_routes.py, server/_cors_resolver.py, server/_models.py: the application
-- server. The children are the paths of routes, their patterns, the access rules, the
-- configuration, the tables of routes and the dispatch of a request.
pub mod Paths
pub mod Patterns
pub mod Cors
pub mod Config
pub mod Routes
pub mod Convert
pub mod Dispatch
pub mod Streams
pub mod Sending
pub mod Events
